-- ===== src/Messages/Wire.antt =====
-- src/handlers/message_handler/messages/message.rs, `SerializedMessage`: the header and the data of a
-- message, their bytes, and how they are found in a buffer. A call that fails leaves the buffer as it
-- is; one that succeeds returns the rest of it.
pub mod RoundTrip
pub mod Partial
use chapterhouse_qe.Common.{
  ℕ, ◌+◌, ◌-◌, ◌%◌, ◌^◌, Option, none, some, List, [], ◌∷◌, ◌++◌, length, ltb, if◌then◌else◌,
  Outcome, ok, err, panic, ◌>>=◌,
}
use chapterhouse_qe.Messages.Bytes.{ByteOrder, take, drop, read_uint, read_uints, put_uints}

pub data SerializedMessageError : Type 0 where
  incomplete : SerializedMessageError
  buffer_read_to_end_failed : SerializedMessageError
  unable_to_cast_message_to_type : List ℕ → SerializedMessageError

pub record SerializedMessage : Type 0 where
  pub header_len : ℕ
  pub header_version : ℕ
  pub data_len : ℕ
  pub msg_name_id : ℕ
  pub msg_id : ℕ
  pub request_id : ℕ
  pub sent_from_flags : ℕ
  pub sent_from_worker_id : ℕ
  pub sent_from_query_id : ℕ
  pub sent_from_operation_id : ℕ
  pub sent_from_connection_id : ℕ
  pub routing_flags : ℕ
  pub route_to_worker_id : ℕ
  pub route_to_operation_id : ℕ
  pub route_to_connection_id : ℕ
  pub msg_data : List ℕ

-- `8 + 2 + 2 + 16 + 16 + 1 + 16 + 16 + 16 + 16 + 1 + 16 + 16 + 16`.
abbrev pub header_len : ℕ
header_len = 158

abbrev pub header_version : ℕ
header_version = 0

-- The fields of the header in the order of the writes and reads, with their widths in bytes.
abbrev pub fields_behind_name : SerializedMessage → List (ℕ × ℕ)
fields_behind_name m =
    (16, m.msg_id)
    ∷ (16, m.request_id)
    ∷ (1, m.sent_from_flags)
    ∷ (16, m.sent_from_worker_id)
    ∷ (16, m.sent_from_query_id)
    ∷ (16, m.sent_from_operation_id)
    ∷ (16, m.sent_from_connection_id)
    ∷ (1, m.routing_flags)
    ∷ (16, m.route_to_worker_id)
    ∷ (16, m.route_to_operation_id)
    ∷ (16, m.route_to_connection_id)
    ∷ []

abbrev pub fields_behind_lengths : SerializedMessage → List (ℕ × ℕ)
fields_behind_lengths m = (2, m.header_version) ∷ (2, m.msg_name_id) ∷ fields_behind_name m

abbrev pub fields : SerializedMessage → List (ℕ × ℕ)
fields m = (4, m.header_len) ∷ (8, m.data_len) ∷ fields_behind_lengths m

abbrev pub widths : List ℕ
widths = 4 ∷ 8 ∷ 2 ∷ 2 ∷ 16 ∷ 16 ∷ 1 ∷ 16 ∷ 16 ∷ 16 ∷ 16 ∷ 1 ∷ 16 ∷ 16 ∷ 16 ∷ []

-- The header of the numbers that were read; the data is not there yet.
abbrev pub header_of : List ℕ → Option SerializedMessage
header_of
      (header_len ∷ data_len ∷ header_version ∷ msg_name_id ∷ msg_id ∷ request_id ∷ sent_from_flags
        ∷ sent_from_worker_id ∷ sent_from_query_id ∷ sent_from_operation_id
        ∷ sent_from_connection_id ∷ routing_flags ∷ route_to_worker_id ∷ route_to_operation_id
        ∷ route_to_connection_id ∷ []) =
    some (record {
      header_len = header_len;
      data_len = data_len;
      header_version = header_version;
      msg_name_id = msg_name_id;
      msg_id = msg_id;
      request_id = request_id;
      sent_from_flags = sent_from_flags;
      sent_from_worker_id = sent_from_worker_id;
      sent_from_query_id = sent_from_query_id;
      sent_from_operation_id = sent_from_operation_id;
      sent_from_connection_id = sent_from_connection_id;
      routing_flags = routing_flags;
      route_to_worker_id = route_to_worker_id;
      route_to_operation_id = route_to_operation_id;
      route_to_connection_id = route_to_connection_id;
      msg_data = [];
    })
header_of _ = none

module _ (order : ByteOrder) where
  unfoldable pub to_bytes : SerializedMessage → List ℕ
  unfolding put_uints
  to_bytes m = put_uints order (fields m) m.msg_data

  unfoldable pub check : List ℕ → Outcome SerializedMessageError (Unit {0})
  unfolding read_uint
  check buf = if ltb (length buf) (4 + 8) then err incomplete else do
    header_len ← read_uint order 4 buf
    data_len ← read_uint order 8 (header_len.1)
    if ltb (length buf) ((header_len.0 + data_len.0) % 2 ^ 64) then err incomplete else ok tt

  -- `with_capacity` panics above `isize::MAX`, and `advance` past the end of the buffer.
  unfoldable pub read_data :
      List ℕ
      → Option SerializedMessage
      → List ℕ
      → Outcome SerializedMessageError (SerializedMessage × List ℕ)
  read_data buf none rest = panic
  read_data buf (some h) rest =
      if ltb (2 ^ 63 - 1) h.data_len
      then panic
      else if ltb (length rest) h.data_len
      then err buffer_read_to_end_failed
      else if ltb (length buf) (4 + h.header_len + h.data_len)
      then panic
      else ok
          (record h { msg_data = take h.data_len rest }, drop (4 + h.header_len + h.data_len) buf)

  unfoldable pub parse : List ℕ → Outcome SerializedMessageError (SerializedMessage × List ℕ)
  unfolding check read_uints read_data
  parse buf = do
    ready ← check buf
    header ← read_uints order widths buf
    read_data buf (header_of (header.0)) (header.1)

  unfoldable pub parse_registered_msg_id : List ℕ → Outcome SerializedMessageError ℕ
  unfolding read_uint
  parse_registered_msg_id buf =
      if ltb (length buf) (4 + 8 + 2 + 2)
      then err incomplete
      else do reg_msg_id ← read_uint order 2 (drop (4 + 8 + 2) buf); ok (reg_msg_id.0)
