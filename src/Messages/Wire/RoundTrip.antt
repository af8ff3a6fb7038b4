-- ===== src/Messages/Wire/RoundTrip.antt =====
-- What is written is read back.
use chapterhouse_qe.Common.{
  ℕ, ◌+◌, ◌-◌, ◌%◌, ◌^◌, ◌<◌, ◌≤◌, ◌≡◌, refl, sym, ap, ◌∙◌, false, some, List, [], ◌∷◌, ◌++◌,
  length, All, length-append, ltb, if◌then◌else◌, Bool-cases, inl, inr, ok, err, ◌>>=◌, arith,
}
use chapterhouse_qe.Messages.Bytes.{
  ByteOrder, put_uints, Fits, read_uint-put, read_uints-put, length-put_uints, put_uints-append,
  take-append, drop-append,
}
use chapterhouse_qe.Messages.Wire.{
  fields_behind_lengths, SerializedMessage, SerializedMessageError, incomplete, header_len, fields,
  header_of, to_bytes, check, read_data, parse,
}

-- The numbers of a message fit their fields, and the lengths are those of the header and the data.
pub record IsWire (m : SerializedMessage) : Type 0 where
  pub header_len : m.header_len ≡ header_len
  pub data_len : length m.msg_data ≡ m.data_len
  pub capacity : m.data_len < 2 ^ 63
  pub header_version : m.header_version < 256 ^ 2
  pub msg_name_id : m.msg_name_id < 256 ^ 2
  pub msg_id : m.msg_id < 256 ^ 16
  pub request_id : m.request_id < 256 ^ 16
  pub sent_from_flags : m.sent_from_flags < 256 ^ 1
  pub sent_from_worker_id : m.sent_from_worker_id < 256 ^ 16
  pub sent_from_query_id : m.sent_from_query_id < 256 ^ 16
  pub sent_from_operation_id : m.sent_from_operation_id < 256 ^ 16
  pub sent_from_connection_id : m.sent_from_connection_id < 256 ^ 16
  pub routing_flags : m.routing_flags < 256 ^ 1
  pub route_to_worker_id : m.route_to_worker_id < 256 ^ 16
  pub route_to_operation_id : m.route_to_operation_id < 256 ^ 16
  pub route_to_connection_id : m.route_to_connection_id < 256 ^ 16

module _ (order : ByteOrder) where
  fields-Fits : (m : SerializedMessage) → IsWire m → All Fits (fields m)
  fields-Fits m v = (
    omega (arith, v.header_len),
    (
      omega (arith, v.capacity),
      (
        v.header_version,
        (
          v.msg_name_id,
          (
            v.msg_id,
            (
              v.request_id,
              (
                v.sent_from_flags,
                (
                  v.sent_from_worker_id,
                  (
                    v.sent_from_query_id,
                    (
                      v.sent_from_operation_id,
                      (
                        v.sent_from_connection_id,
                        (
                          v.routing_flags,
                          (
                            v.route_to_worker_id,
                            (v.route_to_operation_id, (v.route_to_connection_id, tt)),
                          ),
                        ),
                      ),
                    ),
                  ),
                ),
              ),
            ),
          ),
        ),
      ),
    ),
  )

  pub length-to_bytes :
      (m : SerializedMessage) → length (to_bytes order m) ≡ 162 + length m.msg_data
  unfolding to_bytes
  length-to_bytes m = length-put_uints order (fields m) m.msg_data

  -- The check looks at the two lengths in front.
  pub check_lem :
      (hl data_len : ℕ) (rest : List ℕ)
      → hl ≡ header_len
      → data_len < 2 ^ 63
      → check order (put_uints order ((4, hl) ∷ (8, data_len) ∷ []) rest)
        ≡ (if ltb (12 + length rest) (158 + data_len) then err incomplete else ok tt)
  unfolding check put_uints
  check_lem hl data_len rest e h =
      let buf = put_uints order ((4, hl) ∷ (8, data_len) ∷ []) rest in
      let size = length-put_uints order ((4, hl) ∷ (8, data_len) ∷ []) rest in
      rw (long_enough (length buf) (omega (arith, size)), check)
        (rw
          (
            read_uint-put {E = SerializedMessageError} order 4 hl
                (put_uints order ((8, data_len) ∷ []) rest) (ground (arith, e)),
            check,
          )
          (ap
              (λ r. r >>= λ len.
                if ltb (length buf) ((hl + len.0) % 2 ^ 64) then err incomplete else ok tt)
              (read_uint-put {E = SerializedMessageError} order 8 data_len rest (ground (arith, h)))
            ∙ rw (size, no_wrap hl data_len e h) refl))
    where
      long_enough : (n : ℕ) → 12 ≤ n → ltb n 12 ≡ false
      long_enough n h = ground (arith, h)

      no_wrap : (l n : ℕ) → l ≡ 158 → n < 2 ^ 63 → (l + n) % 2 ^ 64 ≡ 158 + n
      no_wrap l n e h = ground (arith, e, h)

  check_full :
      (m : SerializedMessage) (rest : List ℕ)
      → IsWire m
      → check order (put_uints order (fields m) rest)
        ≡ (if ltb (162 + length rest) (158 + m.data_len) then err incomplete else ok tt)
  unfolding put_uints
  check_full m rest v =
      check_lem m.header_len m.data_len (put_uints order (fields_behind_lengths m) rest)
        v.header_len v.capacity
      ∙ ap (λ n. if ltb n (158 + m.data_len) then err incomplete else ok tt)
          (omega (arith, length-put_uints order (fields_behind_lengths m) rest))

  -- The bytes of a header and what is behind it: the check, and then the data.
  pub parse_lem :
      (m : SerializedMessage) (rest : List ℕ)
      → IsWire m
      → parse order (put_uints order (fields m) rest) ≡ (
          if ltb (162 + length rest) (158 + m.data_len)
          then err incomplete
          else read_data order
              (put_uints order (fields m) rest)
              (some (record m { msg_data = [] }))
              rest)
  unfolding parse
  parse_lem m rest v = elim (Bool-cases (ltb (162 + length rest) (158 + m.data_len))) [
    | inl e ↦ rw (check_full m rest v, parse, e) refl
    | inr e ↦
        rw (check_full m rest v, parse)
          (rw (e) (
            ap
              (λ r. r >>= λ header.
                read_data order (put_uints order (fields m) rest) (header_of (header.0)) (header.1))
              (read_uints-put {E = SerializedMessageError} order (fields m) rest
                (fields-Fits m v))))
  ]

  read_data_lem :
      (m : SerializedMessage) (rest : List ℕ)
      → IsWire m
      → read_data order
          (put_uints order (fields m) (m.msg_data ++ rest))
          (some (record m { msg_data = [] }))
          (m.msg_data ++ rest)
        ≡ ok (m, rest)
  unfolding read_data to_bytes
  read_data_lem m rest v =
      let buf = put_uints order (fields m) (m.msg_data ++ rest) in
      let bytes = put_uints order (fields m) m.msg_data in
      let size = 4 + m.header_len + m.data_len in
      let whole = length-put_uints order (fields m) (m.msg_data ++ rest) in
      let behind = length-append m.msg_data rest in
      rw (not_over m.data_len v.capacity, read_data)
        (rw (at_least (length (m.msg_data ++ rest)) m.data_len (omega (arith, behind, v.data_len)))
          (rw (at_least (length buf) size (omega (arith, whole, behind, v.data_len, v.header_len)))
            (rw
              (
                take-append m.data_len m.msg_data rest v.data_len,
                sym (put_uints-append order (fields m) m.msg_data rest),
                drop-append size bytes rest (
                    length-put_uints order (fields m) m.msg_data
                    ∙ omega (arith, v.data_len, v.header_len)),
              )
              refl)))
    where
      not_over : (n : ℕ) → n < 2 ^ 63 → ltb (2 ^ 63 - 1) n ≡ false
      not_over n h = ground (arith, h)

      at_least : (a b : ℕ) → b ≤ a → ltb a b ≡ false
      at_least a b h = ground (arith, h)

  -- A message whose numbers fit their fields is read back from its bytes whatever comes behind them,
  -- and that, all of it, is what stays in the buffer.
  pub parse-to_bytes :
      (m : SerializedMessage) (rest : List ℕ)
      → IsWire m
      → parse order (to_bytes order m ++ rest) ≡ ok (m, rest)
  unfolding to_bytes
  parse-to_bytes m rest v =
      ap (parse order) (put_uints-append order (fields m) m.msg_data rest)
      ∙ parse_lem m (m.msg_data ++ rest) v
      ∙ rw
          (enough (length (m.msg_data ++ rest)) m.data_len
            (omega (arith, length-append m.msg_data rest, v.data_len)))
          (read_data_lem m rest v)
    where
      enough : (l n : ℕ) → n ≤ l → ltb (162 + l) (158 + n) ≡ false
      enough l n h = ground (arith, h)
