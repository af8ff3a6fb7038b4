-- ===== src/Examples/Wires.antt =====
-- src/handlers/message_handler/messages/message.rs: a byte order, and a message in it.
use chapterhouse_qe.Common.{
  ℕ, zero, suc, ◌+◌, ◌*◌, ◌/◌, ◌%◌, ◌^◌, ◌<◌, ◌≡◌, refl, subst, ap, ◌∙◌, true, none, some, List, [],
  ◌∷◌, ◌++◌, length, length-append, ltb, ◌==◌, if◌then◌else◌, Outcome, ok, err, arith,
}
use native.Mathlib.Omega.{pow_step}
use chapterhouse_qe.Messages.Names.{ping}
use chapterhouse_qe.Messages.Bytes.{ByteOrder, take, put_uints}
use chapterhouse_qe.Messages.Wire.{
  SerializedMessage, incomplete, buffer_read_to_end_failed, to_bytes, parse,
}
use chapterhouse_qe.Messages.Wire.RoundTrip.{IsWire, parse-to_bytes}
use chapterhouse_qe.Messages.Wire.Partial.{parse-partial}
use chapterhouse_qe.Messages.Message.{Payloads, Message, build_msg}
use chapterhouse_qe.Messages.Message
use chapterhouse_qe.Messages.Message.Delivery.{IsSendable, received, build_msg-to_bytes}

-- The most significant byte first.
unfoldable pub put_big : ℕ → ℕ → List ℕ
put_big zero n = []
put_big (suc width) n = put_big width (n / 256) ++ (n % 256 ∷ [])

unfoldable pub get_big : ℕ → List ℕ → ℕ
get_big n [] = n
get_big n (b ∷ bs) = get_big (n * 256 + b) bs

pub length-put_big : (width n : ℕ) → length (put_big width n) ≡ width
unfolding put_big
length-put_big zero n = refl
length-put_big (suc width) n =
    length-append (put_big width (n / 256)) (n % 256 ∷ [])
    ∙ omega (arith, length-put_big width (n / 256))

get_big-append : (n : ℕ) (bs : List ℕ) (b : ℕ) → get_big n (bs ++ (b ∷ [])) ≡ get_big n bs * 256 + b
unfolding get_big
get_big-append n [] b = refl
get_big-append n (x ∷ bs) b = get_big-append (n * 256 + x) bs b

pub get_big-put_big : (width n : ℕ) → n < 256 ^ width → get_big 0 (put_big width n) ≡ n
unfolding put_big get_big
get_big-put_big zero n h = ground (arith, h)
get_big-put_big (suc width) n h =
    get_big-append 0 (put_big width (n / 256)) (n % 256)
    ∙ ap (λ k. k * 256 + n % 256)
        (get_big-put_big width (n / 256)
          (smaller (256 ^ width) (subst (λ k. n < k) (pow_step 256 width) h)))
    ∙ whole n
  where
    smaller : (k : ℕ) → n < 256 * k → n / 256 < k
    smaller k h = ground (arith, h)

    whole : (n : ℕ) → (n / 256) * 256 + n % 256 ≡ n
    whole n = ground arith

abbrev pub big_endian : ByteOrder
big_endian = record {
  put = put_big;
  get = λ width bs. get_big 0 bs;
  length-put = length-put_big;
  get-put = get_big-put_big;
}

abbrev small : SerializedMessage
small = record {
  header_len = 158;
  header_version = 0;
  data_len = 5;
  msg_name_id = 7;
  msg_id = 300;
  request_id = 301;
  sent_from_flags = 1;
  sent_from_worker_id = 12;
  sent_from_query_id = 0;
  sent_from_operation_id = 0;
  sent_from_connection_id = 0;
  routing_flags = 0;
  route_to_worker_id = 0;
  route_to_operation_id = 0;
  route_to_connection_id = 0;
  msg_data = 1 ∷ 2 ∷ 3 ∷ 4 ∷ 5 ∷ [];
}

small-IsWire : IsWire small
small-IsWire = record {
  header_len = refl;
  data_len = refl;
  capacity = ground arith;
  header_version = ground arith;
  msg_name_id = ground arith;
  msg_id = ground arith;
  request_id = ground arith;
  sent_from_flags = ground arith;
  sent_from_worker_id = ground arith;
  sent_from_query_id = ground arith;
  sent_from_operation_id = ground arith;
  sent_from_connection_id = ground arith;
  routing_flags = ground arith;
  route_to_worker_id = ground arith;
  route_to_operation_id = ground arith;
  route_to_connection_id = ground arith;
}

parse-to_bytes_example :
    parse big_endian (to_bytes big_endian small ++ (9 ∷ 9 ∷ [])) ≡ ok (small, 9 ∷ 9 ∷ [])
parse-to_bytes_example = parse-to_bytes big_endian small (9 ∷ 9 ∷ []) small-IsWire

parse-partial_example :
    parse big_endian (take 165 (to_bytes big_endian small))
    ≡ (if ltb 165 (158 + 5) then err incomplete else err buffer_read_to_end_failed)
unfolding to_bytes put_uints put_big
parse-partial_example =
    parse-partial big_endian small 165 small-IsWire (ground arith) (ground arith)

-- A payload is a number of one byte.
abbrev pub first_byte : List ℕ → Outcome ℕ ℕ
first_byte [] = err 0
first_byte (b ∷ bs) = ok b

abbrev pub one_byte : Payloads
one_byte = record {
  Sendable = ℕ;
  Failure = ℕ;
  msg_name = λ n. ping;
  to_bytes = λ n. ok (n ∷ []);
  build_msg = λ id. if id == 0 then some first_byte else none;
}

abbrev pub pinged : Message one_byte
pinged = record {
  msg_name_id = 0;
  msg_id = 300;
  request_id = 301;
  msg = 77;
  sent_from_worker_id = some 12;
  sent_from_query_id = none;
  sent_from_operation_id = some 13;
  sent_from_connection_id = none;
  route_to_worker_id = none;
  route_to_operation_id = none;
  route_to_connection_id = some 0;
  inbound_stream_id = none;
  outbound_stream_id = some 3;
  created_on_this_worker = true;
}

pinged-IsSendable : IsSendable pinged
pinged-IsSendable = record {
  msg_name_id = ground arith;
  msg_id = ground arith;
  request_id = ground arith;
  sent_from_worker_id = ground arith;
  sent_from_query_id = tt;
  sent_from_operation_id = ground arith;
  sent_from_connection_id = tt;
  route_to_worker_id = tt;
  route_to_operation_id = tt;
  route_to_connection_id = ground arith;
}

build_msg-to_bytes_example :
    (wire : List ℕ) × (Message.to_bytes big_endian pinged ≡ ok wire)
    × (build_msg big_endian (wire ++ (9 ∷ [])) ≡ (ok (received pinged), 9 ∷ []))
build_msg-to_bytes_example =
    build_msg-to_bytes big_endian pinged (77 ∷ []) (9 ∷ []) first_byte pinged-IsSendable refl
      (ground arith) refl refl
