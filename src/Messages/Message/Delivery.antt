-- ===== src/Messages/Message/Delivery.antt =====
-- A message that one worker writes is the message that the other one reads.
use chapterhouse_qe.Common.{
  ℕ, ◌+◌, ◌^◌, ◌<◌, ◌≤◌, ◌≡◌, refl, sym, ap, ◌∙◌, false, Option, none, some, List, [], ◌∷◌, ◌++◌,
  length, ltb, Outcome, ok, ◌>>=◌, arith,
}
use chapterhouse_qe.Messages.Bytes.{
  ByteOrder, drop, drop-append, put_uints, put_uints-append, length-put_uints, read_uint,
  read_uint-put,
}
use chapterhouse_qe.Messages.Wire.{
  SerializedMessage, SerializedMessageError, fields, fields_behind_name, parse,
  parse_registered_msg_id,
}
use chapterhouse_qe.Messages.Wire
use chapterhouse_qe.Messages.Wire.RoundTrip.{IsWire, parse-to_bytes}
use chapterhouse_qe.Messages.Message.{
  Payloads, Message, id_or_zero, bit, has_bit, id_if, serialize, to_serialized_msg, to_bytes,
  build_from_serialized_message, build_msg,
}

-- The flags tell which ids are there.
sent_from_lem :
    (a b c d : Option ℕ)
    → let flags = bit 1 a + bit 2 b + bit 4 c + bit 8 d in
      (id_if (has_bit flags 1) (id_or_zero a) ≡ a)
      × (id_if (has_bit flags 2) (id_or_zero b) ≡ b)
      × (id_if (has_bit flags 4) (id_or_zero c) ≡ c)
      × (id_if (has_bit flags 8) (id_or_zero d) ≡ d)
      × (flags < 256)
sent_from_lem a b c d = (ground arith, ground arith, ground arith, ground arith, ground arith)

route_to_lem :
    (a b c : Option ℕ)
    → let flags = bit 1 a + bit 2 b + bit 4 c in
      (id_if (has_bit flags 1) (id_or_zero a) ≡ a)
      × (id_if (has_bit flags 2) (id_or_zero b) ≡ b)
      × (id_if (has_bit flags 4) (id_or_zero c) ≡ c)
      × (flags < 256)
route_to_lem a b c = (ground arith, ground arith, ground arith, ground arith)

abbrev pub IsSmall : Option ℕ → Type 0
IsSmall none = Unit {0}
IsSmall (some id) = id < 256 ^ 16

id_or_zero-IsSmall : (id : Option ℕ) → IsSmall id → id_or_zero id < 256 ^ 16
id_or_zero-IsSmall none h = ground arith
id_or_zero-IsSmall (some id) h = h

pub drop-put_uints :
    (order : ByteOrder) (front : List (ℕ × ℕ)) (width : ℕ) (rest : List ℕ)
    → length (put_uints order front []) ≡ width
    → drop width (put_uints order front rest) ≡ rest
drop-put_uints order front width rest h =
    ap (drop width) (sym (put_uints-append order front [] rest))
    ∙ drop-append width (put_uints order front []) rest h

-- The number of a message's name is found at its place.
parse_registered_msg_id_lem :
    (order : ByteOrder) (s : SerializedMessage) (behind : List ℕ)
    → s.msg_name_id < 256 ^ 2
    → parse_registered_msg_id order (Wire.to_bytes order s ++ behind) ≡ ok s.msg_name_id
unfolding parse_registered_msg_id Wire.to_bytes put_uints
parse_registered_msg_id_lem order s behind h =
    let front = (4, s.header_len) ∷ (8, s.data_len) ∷ (2, s.header_version) ∷ [] in
    let name = put_uints order (fields_behind_name s) (s.msg_data ++ behind) in
    let rest = put_uints order ((2, s.msg_name_id) ∷ []) name in
    let buf = put_uints order (fields s) (s.msg_data ++ behind) in
    ap (parse_registered_msg_id order) (put_uints-append order (fields s) s.msg_data behind)
    ∙ rw
        (
          long_enough (length buf)
              (ground (arith, length-put_uints order (fields s) (s.msg_data ++ behind))),
          parse_registered_msg_id,
        )
        (ap (λ b. read_uint {E = SerializedMessageError} order 2 b >>= λ x. ok (x.0))
            (drop-put_uints order front 14 rest (length-put_uints order front []))
          ∙ ap (λ r. r >>= λ x. ok (x.0))
              (read_uint-put {E = SerializedMessageError} order 2 s.msg_name_id name h))
  where
    long_enough : (n : ℕ) → 16 ≤ n → ltb n 16 ≡ false
    long_enough n h = ground (arith, h)

module _ {P : Payloads} where
  -- The ids of a message fit their fields, and its name's number is that of what it carries.
  pub record IsSendable (m : Message P) : Type 0 where
    pub msg_name_id : m.msg_name_id < 256 ^ 2
    pub msg_id : m.msg_id < 256 ^ 16
    pub request_id : m.request_id < 256 ^ 16
    pub sent_from_worker_id : IsSmall m.sent_from_worker_id
    pub sent_from_query_id : IsSmall m.sent_from_query_id
    pub sent_from_operation_id : IsSmall m.sent_from_operation_id
    pub sent_from_connection_id : IsSmall m.sent_from_connection_id
    pub route_to_worker_id : IsSmall m.route_to_worker_id
    pub route_to_operation_id : IsSmall m.route_to_operation_id
    pub route_to_connection_id : IsSmall m.route_to_connection_id

  pub serialize-IsWire :
      (m : Message P) (msg_data : List ℕ)
      → IsSendable m
      → length msg_data < 2 ^ 63
      → IsWire (serialize m msg_data)
  unfolding serialize
  serialize-IsWire m msg_data v h =
      let sent =
        sent_from_lem m.sent_from_worker_id m.sent_from_query_id m.sent_from_operation_id
          m.sent_from_connection_id in
      let routed =
        route_to_lem m.route_to_worker_id m.route_to_operation_id m.route_to_connection_id in
      record {
        header_len = refl;
        data_len = refl;
        capacity = h;
        header_version = ground arith;
        msg_name_id = v.msg_name_id;
        msg_id = v.msg_id;
        request_id = v.request_id;
        sent_from_flags = sent.4;
        sent_from_worker_id = id_or_zero-IsSmall m.sent_from_worker_id v.sent_from_worker_id;
        sent_from_query_id = id_or_zero-IsSmall m.sent_from_query_id v.sent_from_query_id;
        sent_from_operation_id =
            id_or_zero-IsSmall m.sent_from_operation_id v.sent_from_operation_id;
        sent_from_connection_id =
            id_or_zero-IsSmall m.sent_from_connection_id v.sent_from_connection_id;
        routing_flags = routed.3;
        route_to_worker_id = id_or_zero-IsSmall m.route_to_worker_id v.route_to_worker_id;
        route_to_operation_id = id_or_zero-IsSmall m.route_to_operation_id v.route_to_operation_id;
        route_to_connection_id =
            id_or_zero-IsSmall m.route_to_connection_id v.route_to_connection_id;
      }

  -- The message as the other side has it.
  abbrev pub received : Message P → Message P
  received m = record m {
    inbound_stream_id = none;
    outbound_stream_id = none;
    created_on_this_worker = false;
  }

  build-serialize :
      (m : Message P) (msg_data : List ℕ)
      → build_from_serialized_message (serialize m msg_data) m.msg ≡ received m
  unfolding build_from_serialized_message serialize
  build-serialize m msg_data =
      let sent =
        sent_from_lem m.sent_from_worker_id m.sent_from_query_id m.sent_from_operation_id
          m.sent_from_connection_id in
      let routed =
        route_to_lem m.route_to_worker_id m.route_to_operation_id m.route_to_connection_id in
      rw (sent.0, sent.1, sent.2, sent.3, routed.0, routed.1, routed.2) refl

  -- A message whose ids fit their fields, whose payload has bytes, fewer than 2^63, and for whose number
  -- a parser is registered that reads the payload from these bytes, has bytes that the other side reads,
  -- in front of any others, as the same message, without the streams and the mark of the first side, and
  -- the other bytes stay in its buffer.
  pub build_msg-to_bytes :
      (order : ByteOrder) (m : Message P) (msg_data behind : List ℕ)
      (parser : List ℕ → Outcome P.Failure P.Sendable)
      → IsSendable m
      → P.to_bytes m.msg ≡ ok msg_data
      → length msg_data < 2 ^ 63
      → P.build_msg m.msg_name_id ≡ some parser
      → parser msg_data ≡ ok m.msg
      → (wire : List ℕ) × (to_bytes order m ≡ ok wire)
        × (build_msg order (wire ++ behind) ≡ (ok (received m), behind))
  unfolding to_bytes to_serialized_msg build_msg
  build_msg-to_bytes order m msg_data behind parser v e h found reads = (
    Wire.to_bytes order (serialize m msg_data),
    rw (e) refl,
    rw
        (
          parse_registered_msg_id_lem order (serialize m msg_data) behind v.msg_name_id,
          build_msg,
          found,
          parse-to_bytes order (serialize m msg_data) behind (serialize-IsWire m msg_data v h),
          reads,
          build-serialize m msg_data,
        )
        refl,
  )
