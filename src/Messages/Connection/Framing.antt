-- ===== src/Messages/Connection/Framing.antt =====
-- Where one message ends and the next one begins: what `build_msg` does at the front of the buffer of a
-- connection.
use chapterhouse_qe.Common.{
  ℕ, zero, suc, ◌+◌, ◌^◌, ◌<◌, ◌≤◌, ◌≡◌, refl, sym, ap, ◌∙◌, subst, false, some, List, [], ◌∷◌,
  ◌++◌, length, length-append, ltb, if◌then◌else◌, Outcome, ok, err, Bool-cases, Option-cases, inl,
  inr, ◌⊎◌, arith,
}
use chapterhouse_qe.Messages.Bytes.{ByteOrder, take, drop, take-append, read_uint}
use chapterhouse_qe.Messages.Wire.{
  SerializedMessage, SerializedMessageError, incomplete, buffer_read_to_end_failed, parse,
  parse_registered_msg_id,
}
use chapterhouse_qe.Messages.Wire
use chapterhouse_qe.Messages.Wire.RoundTrip.{length-to_bytes}
use chapterhouse_qe.Messages.Wire.Partial.{parse-partial}
use chapterhouse_qe.Messages.Message.{
  Payloads, Message, MessageRegistryError, incomplete_message, message_id_not_in_registry,
  serialized_message, serialize, to_bytes, to_serialized_msg, build_msg,
}
use chapterhouse_qe.Messages.Message.Delivery.{
  IsSendable, received, serialize-IsWire, build_msg-to_bytes,
}
use chapterhouse_qe.Messages.Connection.{max_buffer}

length-drop : (n : ℕ) (xs : List ℕ) → n ≤ length xs → n + length (drop n xs) ≡ length xs
length-drop zero xs h = omega arith
length-drop (suc n) [] h = absurd (ground (arith, h))
length-drop (suc n) (x ∷ xs) h =
    let rest = length-drop n xs (ground (arith, h)) in ground (arith, rest)

module _ (order : ByteOrder) where
  read_uint_two :
      (bs : List ℕ)
      → ltb (length bs) 2 ≡ false
      → read_uint {E = SerializedMessageError} order 2 bs ≡ ok (order.get 2 (take 2 bs), drop 2 bs)
  unfolding read_uint
  read_uint_two bs h = rw (h, read_uint) refl

  -- The number of a message's name is read or missing.
  name_cases :
      (buf : List ℕ)
      → ((e : SerializedMessageError) × (parse_registered_msg_id order buf ≡ err e))
        ⊎ ((n : ℕ) × (parse_registered_msg_id order buf ≡ ok n))
  unfolding parse_registered_msg_id
  name_cases buf = elim (Bool-cases (ltb (length buf) 16)) [
    | inl e ↦ inl (incomplete, rw (e, parse_registered_msg_id) refl)
    | inr e ↦
        let long = length-drop 14 buf (ground (arith, e)) in
        let there : ltb (length (drop 14 buf)) 2 ≡ false = ground (arith, long, e) in
        inr (
          order.get 2 (take 2 (drop 14 buf)),
          rw (e, read_uint_two (drop 14 buf) there, parse_registered_msg_id) refl,
        )
  ]

prefix_take :
    (p : List ℕ) (b : ℕ) (q wire : List ℕ)
    → wire ≡ p ++ (b ∷ q)
    → (take (length p) wire ≡ p) × (length p < length wire)
prefix_take p b q wire e = (ap (take (length p)) e ∙ take-append (length p) p (b ∷ q) refl, longer)
  where
    longer : length p < length wire
    longer = omega (arith, ap length e, length-append p (b ∷ q))

module _ {P : Payloads} (order : ByteOrder) where
  -- A message that is sent and the bytes that it is sent as; `IsSendable` and the parser are what
  -- the other side relies on to read it.
  pub record Frame (m : Message P) (wire : List ℕ) : Type 0 where
    pub msg_data : List ℕ
    pub parser : List ℕ → Outcome P.Failure P.Sendable
    pub sendable : IsSendable m
    pub bytes : P.to_bytes m.msg ≡ ok msg_data
    pub four : 4 ≤ length msg_data
    pub short : length msg_data < 2 ^ 63
    pub found : P.build_msg m.msg_name_id ≡ some parser
    pub reads : parser msg_data ≡ ok m.msg
    pub sent : to_bytes order m ≡ ok wire
    pub bounded : length wire ≤ max_buffer

  wire_lem :
      (m : Message P) (wire : List ℕ) (f : Frame m wire)
      → Wire.to_bytes order (serialize m f.msg_data) ≡ wire
  unfolding to_bytes to_serialized_msg
  wire_lem m wire f =
      let sent : to_bytes order m ≡ ok (Wire.to_bytes order (serialize m f.msg_data)) =
        rw (f.bytes, to_bytes) refl in
      let same = f.sent in cc

  pub wire_length : (m : Message P) (wire : List ℕ) → Frame m wire → 162 < length wire
  unfolding serialize
  wire_length m wire f =
      let whole = length-to_bytes order (serialize m f.msg_data) in
      omega (arith, whole, ap length (wire_lem m wire f), f.four)

  pub build_whole :
      (m : Message P) (wire behind : List ℕ)
      → Frame m wire
      → build_msg order (wire ++ behind) ≡ (ok (received m), behind)
  build_whole m wire behind f =
      let (wire', sent, built) =
        build_msg-to_bytes order m f.msg_data behind f.parser f.sendable f.bytes f.short f.found
          f.reads in
      let ours = f.sent in
      let same : wire' ≡ wire = cc in
      subst (λ w. build_msg order (w ++ behind) ≡ (ok (received m), behind)) same built

  -- A message of which the last byte is missing, or more, leaves the buffer as it is.
  pub build_partial :
      (m : Message P) (wire p : List ℕ) (b : ℕ) (q : List ℕ)
      → Frame m wire
      → wire ≡ p ++ (b ∷ q)
      → (e : MessageRegistryError P) × (build_msg order p ≡ (err e, p))
  unfolding build_msg serialize
  build_partial m wire p b q f e =
      let same = wire_lem m wire f in
      let (taken, less) = prefix_take p b q wire e in
      let whole = length-to_bytes order (serialize m f.msg_data) in
      let parsed : parse order p ≡ (
          if ltb (length p) (158 + length f.msg_data)
          then err incomplete
          else err buffer_read_to_end_failed) =
        ap (parse order) (sym (ap (take (length p)) same ∙ taken))
        ∙ parse-partial order (serialize m f.msg_data) (length p)
            (serialize-IsWire m f.msg_data f.sendable f.short) f.four
            (subst (λ w. length p < length w) (sym same) less) in
      elim (name_cases order p) [
        | inl (e, named) ↦ (serialized_message e, rw (named, build_msg) refl)
        | inr (n, named) ↦ elim (Option-cases (P.build_msg n)) [
          | inl missing ↦ (message_id_not_in_registry n, rw (named, build_msg, missing) refl)
          | inr (parser, there) ↦ elim (Bool-cases (ltb (length p) (158 + length f.msg_data))) [
            | inl few ↦ (incomplete_message, rw (named, build_msg, there, parsed, few) refl)
            | inr many ↦ (
              serialized_message buffer_read_to_end_failed,
              rw (named, build_msg, there, parsed, many) refl,
            )
          ]
        ]
      ]

  -- An empty buffer.
  pub build_nothing : (e : MessageRegistryError P) × (build_msg order [] ≡ (err e, []))
  unfolding build_msg parse_registered_msg_id
  build_nothing = (serialized_message incomplete, refl)
