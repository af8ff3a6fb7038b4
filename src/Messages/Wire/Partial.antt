-- ===== src/Messages/Wire/Partial.antt =====
-- A message of which only the first bytes have come.
use chapterhouse_qe.Common.{
  ℕ, zero, suc, ◌+◌, ◌-◌, ◌^◌, ◌<◌, ◌≤◌, ◌≡◌, refl, sym, ap, ◌∙◌, true, false, List, [], ◌∷◌, ◌++◌,
  length, ltb, if◌then◌else◌, Bool-cases, inl, inr, err, arith,
}
use chapterhouse_qe.Messages.Bytes.{ByteOrder, take, put_uints, length-put_uints, total_width}
use chapterhouse_qe.Messages.Wire.{
  SerializedMessage, incomplete, buffer_read_to_end_failed, fields, fields_behind_lengths, to_bytes,
  check, read_data, parse,
}
use chapterhouse_qe.Messages.Wire.RoundTrip.{IsWire, check_lem, parse_lem, length-to_bytes}

length-take : (n : ℕ) (xs : List ℕ) → n ≤ length xs → length (take n xs) ≡ n
length-take zero xs h = refl
length-take (suc n) [] h = absurd (ground (arith, h))
length-take (suc n) (x ∷ xs) h = ground (arith, length-take n xs (ground (arith, h)))

from_zero : (n : ℕ) → 0 + n ≡ n
from_zero n = omega arith

suc_left : (k n : ℕ) → suc k + n ≡ suc (k + n)
suc_left k n = omega arith

-- A prefix that ends behind the first of two parts.
take-behind : (k n : ℕ) (xs ys : List ℕ) → length xs ≡ k → take (k + n) (xs ++ ys) ≡ xs ++ take n ys
take-behind zero n [] ys h = ap (λ w. take w ys) (from_zero n)
take-behind zero n (x ∷ xs) ys h = absurd (ground (arith, h))
take-behind (suc k) n [] ys h = absurd (ground (arith, h))
take-behind (suc k) n (x ∷ xs) ys h =
    ap (λ w. take w (x ∷ (xs ++ ys))) (suc_left k n)
    ∙ ap (λ zs. x ∷ zs) (take-behind k n xs ys (ground (arith, h)))

module _ (order : ByteOrder) where
  take-put_uints :
      (fields : List (ℕ × ℕ)) (n : ℕ) (rest : List ℕ)
      → take (total_width fields + n) (put_uints order fields rest)
        ≡ put_uints order fields (take n rest)
  unfolding put_uints
  take-put_uints [] n rest = ap (λ w. take w rest) (from_zero n)
  take-put_uints (field ∷ fields) n rest =
      ap (λ w. take w (put_uints order (field ∷ fields) rest))
        (assoc (field.0) (total_width fields) n)
      ∙ take-behind (field.0) (total_width fields + n) (order.put (field.0) (field.1))
          (put_uints order fields rest) (order.length-put (field.0) (field.1))
      ∙ ap (λ zs. order.put (field.0) (field.1) ++ zs) (take-put_uints fields n rest)
    where
      assoc : (a b c : ℕ) → (a + b) + c ≡ a + (b + c)
      assoc a b c = omega arith

  -- With less than the two lengths, the check fails.
  short_check : (buf : List ℕ) → length buf < 12 → check order buf ≡ err incomplete
  unfolding check
  short_check buf h = rw (short (length buf) h, check) refl
    where
      short : (n : ℕ) → n < 12 → ltb n 12 ≡ true
      short n h = ground (arith, h)

  check_error : (buf : List ℕ) → check order buf ≡ err incomplete → parse order buf ≡ err incomplete
  unfolding parse
  check_error buf e = rw (e, parse) refl

  -- Of a message whose numbers fit their fields and that has four bytes of data at least, a buffer that
  -- holds only the first n bytes yields no message and no panic. The check finds it incomplete as long
  -- as n is below the header's length and the data's; with the last four bytes missing or less than
  -- four, it takes the buffer for whole, and the read of the data fails.
  pub parse-partial :
      (m : SerializedMessage) (n : ℕ)
      → IsWire m
      → 4 ≤ m.data_len
      → n < length (to_bytes order m)
      → parse order (take n (to_bytes order m))
        ≡ (if ltb n (158 + m.data_len) then err incomplete else err buffer_read_to_end_failed)
  unfolding to_bytes put_uints read_data
  parse-partial m n v four h = elim (Bool-cases (ltb n 12)) [
    | inl e ↦
        let few = length-take n (to_bytes order m) (ground (arith, h)) in
        check_error (take n (to_bytes order m))
          (short_check (take n (to_bytes order m)) (ground (arith, few, e)))
        ∙ sym (rw (short n m.data_len e) refl)
    | inr e ↦ elim (Bool-cases (ltb n (158 + m.data_len))) [
      | inl e' ↦ rw (e') (check_error (take n (to_bytes order m)) (lengths_only e e'))
      | inr e' ↦ rw (e') (header_only e')
    ]
  ]
    where
      short : (n d : ℕ) → ltb n 12 ≡ true → ltb n (158 + d) ≡ true
      short n d e = ground (arith, e)

      not_over : (d : ℕ) → d < 2 ^ 63 → ltb (2 ^ 63 - 1) d ≡ false
      not_over d h = ground (arith, h)

      too_few : n < 162 + m.data_len → ltb (n - 162) m.data_len ≡ true
      too_few h = ground (arith, four, h)

      lengths_only :
          ltb n 12 ≡ false
          → ltb n (158 + m.data_len) ≡ true
          → check order (take n (to_bytes order m)) ≡ err incomplete
      lengths_only e e' =
          let lengths = (4, m.header_len) ∷ (8, m.data_len) ∷ [] in
          let behind = put_uints order (fields_behind_lengths m) m.msg_data in
          let many = length-put_uints order (fields_behind_lengths m) m.msg_data in
          let split : n ≡ 12 + (n - 12) = ground (arith, e) in
          let few = length-take (n - 12) behind (ground (arith, many, e', v.data_len)) in
          ap (λ k. check order (take k (to_bytes order m))) split
          ∙ ap (check order) (take-put_uints lengths (n - 12) behind)
          ∙ check_lem order m.header_len m.data_len (take (n - 12) behind) v.header_len v.capacity
          ∙ rw (few, sym split, e') refl

      header_only :
          ltb n (158 + m.data_len) ≡ false
          → parse order (take n (to_bytes order m)) ≡ err buffer_read_to_end_failed
      header_only e' =
          let split : n ≡ 162 + (n - 162) = ground (arith, e', four) in
          let total = length-to_bytes order m in
          let few = length-take (n - 162) m.msg_data (omega (arith, h, total)) in
          ap (λ k. parse order (take k (to_bytes order m))) split
          ∙ ap (parse order) (take-put_uints (fields m) (n - 162) m.msg_data)
          ∙ parse_lem order m (take (n - 162) m.msg_data) v
          ∙ rw (few, sym split, e')
              (rw (not_over m.data_len v.capacity, read_data)
                (rw (too_few (omega (arith, h, total, v.data_len))) refl))
