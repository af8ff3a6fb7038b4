-- ===== src/Messages/Message.antt =====
-- src/handlers/message_handler/messages/message.rs, `Message`, and message_registry.rs in the folder
-- above it. What a message carries, a trait object, is of a type that the application gives: its name,
-- its bytes and how the parser of a name reads them. A new id, from `Uuid::new_v4`, is an argument.
pub mod Delivery
use chapterhouse_qe.Common.{
  ℕ, zero, suc, ◌+◌, ◌*◌, ◌/◌, ◌%◌, ◌^◌, Bool, true, false, Option, none, some, List, [], ◌∷◌, ◌++◌,
  length, any, ◌==◌, if◌then◌else◌, Outcome, ok, err, panic, ◌>>=◌,
}
use chapterhouse_qe.Messages.Names.{MessageName, as_u16}
use chapterhouse_qe.Messages.Bytes.{ByteOrder}
use chapterhouse_qe.Messages.Wire.{
  SerializedMessage, SerializedMessageError, header_len, header_version, incomplete,
  buffer_read_to_end_failed, unable_to_cast_message_to_type, parse, parse_registered_msg_id,
}
use chapterhouse_qe.Messages.Wire

-- The types that implement `SendableMessage`: `to_bytes` is theirs, and `build_msg` that of the parser
-- which is registered under a number, or `none` where there is none. Both may fail.
pub record Payloads : Type 1 where
  pub Sendable : Type 0
  pub Failure : Type 0
  pub msg_name : Sendable → MessageName
  pub to_bytes : Sendable → Outcome Failure (List ℕ)
  pub build_msg : ℕ → Option (List ℕ → Outcome Failure Sendable)

module _ (P : Payloads) where
  pub record Message : Type 0 where
    pub msg_name_id : ℕ
    pub msg_id : ℕ
    pub request_id : ℕ
    pub msg : P.Sendable
    pub sent_from_worker_id : Option ℕ
    pub sent_from_query_id : Option ℕ
    pub sent_from_operation_id : Option ℕ
    pub sent_from_connection_id : Option ℕ
    pub route_to_worker_id : Option ℕ
    pub route_to_operation_id : Option ℕ
    pub route_to_connection_id : Option ℕ
    pub inbound_stream_id : Option ℕ
    pub outbound_stream_id : Option ℕ
    pub created_on_this_worker : Bool

  pub data MessageRegistryError : Type 0 where
    incomplete_message : MessageRegistryError
    message_id_not_in_registry : ℕ → MessageRegistryError
    serialized_message : SerializedMessageError → MessageRegistryError
    payload : P.Failure → MessageRegistryError

-- An id that is not there is zero, and its bit of the flags is not set.
abbrev pub id_or_zero : Option ℕ → ℕ
id_or_zero none = 0
id_or_zero (some id) = id

abbrev pub bit : ℕ → Option ℕ → ℕ
bit b none = 0
bit b (some id) = b

-- `flags & b == b` for a power of two.
abbrev pub has_bit : ℕ → ℕ → Bool
has_bit flags b = (flags / b) % 2 == 1

abbrev pub id_if : Bool → ℕ → Option ℕ
id_if true id = some id
id_if false id = none

module _ {P : Payloads} where
  unfoldable pub new : ℕ → ℕ → P.Sendable → Message P
  unfolding as_u16
  new msg_id request_id msg = record {
    msg_name_id = as_u16 (P.msg_name msg);
    msg_id = msg_id;
    request_id = request_id;
    msg = msg;
    sent_from_worker_id = none;
    sent_from_query_id = none;
    sent_from_operation_id = none;
    sent_from_connection_id = none;
    route_to_worker_id = none;
    route_to_operation_id = none;
    route_to_connection_id = none;
    inbound_stream_id = none;
    outbound_stream_id = none;
    created_on_this_worker = true;
  }

  unfoldable pub reply : ℕ → ℕ → Message P → P.Sendable → Message P
  unfolding new
  reply msg_id request_id m sendable = record (new msg_id request_id sendable) {
    request_id = m.request_id;
    route_to_worker_id = m.sent_from_worker_id;
    route_to_operation_id = m.sent_from_operation_id;
    route_to_connection_id = m.sent_from_connection_id;
    inbound_stream_id = m.inbound_stream_id;
    outbound_stream_id = m.outbound_stream_id;
  }

  unfoldable pub set_sent_from_worker_id : Message P → ℕ → Message P
  set_sent_from_worker_id m id = record m { sent_from_worker_id = some id }

  unfoldable pub set_route_to_connection_id : Message P → ℕ → Message P
  set_route_to_connection_id m id = record m { route_to_connection_id = some id }

  unfoldable pub set_route_to_worker_id : Message P → ℕ → Message P
  set_route_to_worker_id m id = record m { route_to_worker_id = some id }

  unfoldable pub set_route_to_operation_id : Message P → ℕ → Message P
  set_route_to_operation_id m id = record m { route_to_operation_id = some id }

  unfoldable pub set_inbound_stream_id : Message P → ℕ → Message P
  set_inbound_stream_id m id = record m { inbound_stream_id = some id }

  unfoldable pub set_outbound_stream : Message P → ℕ → Message P
  set_outbound_stream m id = record m { outbound_stream_id = some id }

  -- The flags are sums, since their bits are different.
  unfoldable pub serialize : Message P → List ℕ → SerializedMessage
  serialize m msg_data = record {
    header_len = header_len;
    header_version = header_version;
    data_len = length msg_data;
    msg_name_id = m.msg_name_id;
    msg_id = m.msg_id;
    request_id = m.request_id;
    sent_from_flags =
        bit 1 m.sent_from_worker_id
        + bit 2 m.sent_from_query_id
        + bit 4 m.sent_from_operation_id
        + bit 8 m.sent_from_connection_id;
    sent_from_worker_id = id_or_zero m.sent_from_worker_id;
    sent_from_query_id = id_or_zero m.sent_from_query_id;
    sent_from_operation_id = id_or_zero m.sent_from_operation_id;
    sent_from_connection_id = id_or_zero m.sent_from_connection_id;
    routing_flags =
        bit 1 m.route_to_worker_id + bit 2 m.route_to_operation_id + bit 4 m.route_to_connection_id;
    route_to_worker_id = id_or_zero m.route_to_worker_id;
    route_to_operation_id = id_or_zero m.route_to_operation_id;
    route_to_connection_id = id_or_zero m.route_to_connection_id;
    msg_data = msg_data;
  }

  unfoldable pub to_serialized_msg : Message P → Outcome P.Failure SerializedMessage
  unfolding serialize
  to_serialized_msg m = do msg_data ← P.to_bytes m.msg; ok (serialize m msg_data)

  unfoldable pub to_bytes : ByteOrder → Message P → Outcome P.Failure (List ℕ)
  unfolding to_serialized_msg Wire.to_bytes
  to_bytes order m = do ser_msg ← to_serialized_msg m; ok (Wire.to_bytes order ser_msg)

  unfoldable pub build_from_serialized_message : SerializedMessage → P.Sendable → Message P
  build_from_serialized_message s msg = record {
    msg_name_id = s.msg_name_id;
    msg_id = s.msg_id;
    request_id = s.request_id;
    msg = msg;
    sent_from_worker_id = id_if (has_bit s.sent_from_flags 1) s.sent_from_worker_id;
    sent_from_query_id = id_if (has_bit s.sent_from_flags 2) s.sent_from_query_id;
    sent_from_operation_id = id_if (has_bit s.sent_from_flags 4) s.sent_from_operation_id;
    sent_from_connection_id = id_if (has_bit s.sent_from_flags 8) s.sent_from_connection_id;
    route_to_worker_id = id_if (has_bit s.routing_flags 1) s.route_to_worker_id;
    route_to_operation_id = id_if (has_bit s.routing_flags 2) s.route_to_operation_id;
    route_to_connection_id = id_if (has_bit s.routing_flags 4) s.route_to_connection_id;
    inbound_stream_id = none;
    outbound_stream_id = none;
    created_on_this_worker = false;
  }

  abbrev pub of_wire :
      {A : Type 0} → Outcome SerializedMessageError A → Outcome (MessageRegistryError P) A
  of_wire (ok a) = ok a
  of_wire (err e) = err (serialized_message e)
  of_wire panic = panic

  -- The failures of `parse`, of which one gets another name.
  abbrev pub of_parse :
      {A : Type 0} → Outcome SerializedMessageError A → Outcome (MessageRegistryError P) A
  of_parse (ok a) = ok a
  of_parse (err incomplete) = err incomplete_message
  of_parse (err buffer_read_to_end_failed) = err (serialized_message buffer_read_to_end_failed)
  of_parse (err (unable_to_cast_message_to_type name)) =
      err (serialized_message (unable_to_cast_message_to_type name))
  of_parse panic = panic

  abbrev pub of_payload : {A : Type 0} → Outcome P.Failure A → Outcome (MessageRegistryError P) A
  of_payload (ok a) = ok a
  of_payload (err e) = err (payload e)
  of_payload panic = panic

  -- The message and the rest of the buffer, or an error; a message whose payload cannot be read is
  -- taken from the buffer all the same, which the second component says.
  unfoldable pub build_msg :
      ByteOrder → List ℕ → Outcome (MessageRegistryError P) (Message P) × List ℕ
  unfolding parse parse_registered_msg_id build_from_serialized_message
  build_msg order buf = elim (of_wire (parse_registered_msg_id order buf)) [
    | err e ↦ (err e, buf)
    | panic ↦ (panic, buf)
    | ok reg_msg_id ↦ elim (P.build_msg reg_msg_id) [
      | none ↦ (err (message_id_not_in_registry reg_msg_id), buf)
      | some parser ↦ elim (of_parse (parse order buf)) [
        | err e ↦ (err e, buf)
        | panic ↦ (panic, buf)
        | ok (ser_msg, rest) ↦ (
          do
            msg ← of_payload (parser ser_msg.msg_data)
            ok (build_from_serialized_message ser_msg msg),
          rest,
        )
      ]
    ]
  ]
