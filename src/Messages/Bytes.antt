-- ===== src/Messages/Bytes.antt =====
-- What src/handlers/message_handler/messages/message.rs takes from the crate `bytes`, and the cursor of
-- the standard library over the bytes of a buffer.
use chapterhouse_qe.Common.{
  ℕ, zero, suc, ◌+◌, ◌<◌, ◌≤◌, ◌^◌, ◌≡◌, refl, ap, List, [], ◌∷◌, ◌++◌, map, All, append_assoc, ◌∙◌,
  length, length-append, ltb, false, if◌then◌else◌, Outcome, ok, panic, ◌>>=◌, arith,
}

-- `put_u8` up to `put_u128` and `get_u8` up to `get_u128` by their widths in bytes: a number is written
-- in its width, and read back from there.
pub record ByteOrder : Type 0 where
  pub put : ℕ → ℕ → List ℕ
  pub get : ℕ → List ℕ → ℕ
  pub length-put : (width n : ℕ) → length (put width n) ≡ width
  pub get-put : (width n : ℕ) → n < 256 ^ width → get width (put width n) ≡ n

abbrev pub take : ℕ → List ℕ → List ℕ
take zero bs = []
take (suc n) [] = []
take (suc n) (b ∷ bs) = b ∷ take n bs

abbrev pub drop : ℕ → List ℕ → List ℕ
drop zero bs = bs
drop (suc n) [] = []
drop (suc n) (b ∷ bs) = drop n bs

-- A read at the cursor, with the bytes behind it. A read past the end panics, as in `bytes`.
unfoldable pub read_uint : {E : Type 0} → ByteOrder → ℕ → List ℕ → Outcome E (ℕ × List ℕ)
read_uint order width bs =
    if ltb (length bs) width then panic else ok (order.get width (take width bs), drop width bs)

-- Reads, one behind the other.
unfoldable pub read_uints : {E : Type 0} → ByteOrder → List ℕ → List ℕ → Outcome E (List ℕ × List ℕ)
unfolding read_uint
read_uints order [] bs = ok ([], bs)
read_uints order (width ∷ widths) bs = do
  first ← read_uint order width bs
  others ← read_uints order widths (first.1)
  ok (first.0 ∷ others.0, others.1)

-- Numbers with their widths, one behind the other, in front of some bytes.
unfoldable pub put_uints : ByteOrder → List (ℕ × ℕ) → List ℕ → List ℕ
put_uints order [] rest = rest
put_uints order (field ∷ fields) rest = order.put (field.0) (field.1) ++ put_uints order fields rest

pub take-append : (n : ℕ) (xs ys : List ℕ) → length xs ≡ n → take n (xs ++ ys) ≡ xs
take-append zero [] ys h = refl
take-append zero (x ∷ xs) ys h = absurd (ground (arith, h))
take-append (suc n) [] ys h = absurd (ground (arith, h))
take-append (suc n) (x ∷ xs) ys h = ap (λ zs. x ∷ zs) (take-append n xs ys (ground (arith, h)))

pub drop-append : (n : ℕ) (xs ys : List ℕ) → length xs ≡ n → drop n (xs ++ ys) ≡ ys
drop-append zero [] ys h = refl
drop-append zero (x ∷ xs) ys h = absurd (ground (arith, h))
drop-append (suc n) [] ys h = absurd (ground (arith, h))
drop-append (suc n) (x ∷ xs) ys h = drop-append n xs ys (ground (arith, h))

-- A number that was put is what is read, and the bytes behind it are left.
pub read_uint-put :
    {E : Type 0} (order : ByteOrder) (width n : ℕ) (rest : List ℕ)
    → n < 256 ^ width
    → read_uint {E = E} order width (order.put width n ++ rest) ≡ ok (n, rest)
unfolding read_uint
read_uint-put order width n rest h =
    rw
      (
        take-append width (order.put width n) rest (order.length-put width n),
        drop-append width (order.put width n) rest (order.length-put width n),
        order.get-put width n h,
        enough width (length (order.put width n ++ rest))
            (omega (arith, length-append (order.put width n) rest, order.length-put width n)),
      )
      refl
  where
    enough : (w l : ℕ) → w ≤ l → ltb l w ≡ false
    enough w l h = ground (arith, h)

-- A field's number fits its width.
abbrev pub Fits : ℕ × ℕ → Type 0
Fits field = field.1 < 256 ^ field.0

pub read_uints-put :
    {E : Type 0} (order : ByteOrder) (fields : List (ℕ × ℕ)) (rest : List ℕ)
    → All Fits fields
    → read_uints {E = E} order (map (λ field. field.0) fields) (put_uints order fields rest)
      ≡ ok (map (λ field. field.1) fields, rest)
unfolding read_uints put_uints
read_uints-put order [] rest h = refl
read_uints-put {E} order (field ∷ fields) rest h =
    rw
      (
        read_uint-put {E = E} order (field.0) (field.1) (put_uints order fields rest) (h.0),
        read_uints,
      )
      (ap (λ r. r >>= λ others. ok (field.1 ∷ others.0, others.1))
        (read_uints-put {E = E} order fields rest (h.1)))

abbrev pub total_width : List (ℕ × ℕ) → ℕ
total_width [] = 0
total_width (field ∷ fields) = field.0 + total_width fields

pub length-put_uints :
    (order : ByteOrder) (fields : List (ℕ × ℕ)) (rest : List ℕ)
    → length (put_uints order fields rest) ≡ total_width fields + length rest
unfolding put_uints
length-put_uints order [] rest = omega arith
length-put_uints order (field ∷ fields) rest = omega (
  arith,
  length-append (order.put (field.0) (field.1)) (put_uints order fields rest),
  order.length-put (field.0) (field.1),
  length-put_uints order fields rest,
)

pub put_uints-append :
    (order : ByteOrder) (fields : List (ℕ × ℕ)) (xs ys : List ℕ)
    → put_uints order fields xs ++ ys ≡ put_uints order fields (xs ++ ys)
unfolding put_uints
put_uints-append order [] xs ys = refl
put_uints-append order (field ∷ fields) xs ys =
    append_assoc (order.put (field.0) (field.1)) (put_uints order fields xs) ys
    ∙ ap (λ zs. order.put (field.0) (field.1) ++ zs) (put_uints-append order fields xs ys)
