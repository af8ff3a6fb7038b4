-- ===== src/Planner/Physical/Ids.antt =====
-- The ids of operators tell their nodes and their kinds apart.
use chapterhouse_qe.Common.{
  ℕ, zero, suc, ◌+◌, ◌*◌, ◌-◌, ◌/◌, ◌%◌, ◌<◌, ◌≡◌, refl, sym, ap, ap₂, ◌∙◌, false, [], ◌∷◌, ◌++◌,
  arith, ltb, ◌==◌, any, Text, codes, decimal, decimal_digits, Bool-cases, inl, inr,
}
use chapterhouse_qe.Planner.Physical.Planner.{new_operator_id}

-- The number that a list of decimal digits writes.
read : ℕ → Text → ℕ
read acc [] = acc
read acc (d ∷ ds) = read (acc * 10 + (d - 48)) ds

read-snoc : (acc : ℕ) (ds : Text) (d : ℕ) → read acc (ds ++ (d ∷ [])) ≡ read acc ds * 10 + (d - 48)
unfolding read
read-snoc acc [] d = refl
read-snoc acc (x ∷ ds) d = read-snoc (acc * 10 + (x - 48)) ds d

read-decimal_digits : (fuel n : ℕ) → n < fuel → read 0 (decimal_digits fuel n) ≡ n
unfolding decimal_digits read
read-decimal_digits zero n h = absurd (omega arith)
read-decimal_digits (suc fuel) n h = elim (Bool-cases (ltb n 10)) [
  | inl small ↦ rw small (omega arith)
  | inr big ↦
      rw big (
        rw read-snoc (ground (arith, big, read-decimal_digits fuel (n / 10) (ground (arith, big)))))
]

read-decimal : (n : ℕ) → read 0 (decimal n) ≡ n
unfolding decimal
read-decimal n = read-decimal_digits (suc n) n (omega arith)

-- No digit is an underscore.
abbrev NoBar : Text → Type 0
NoBar ds = any (λ d. d == 95) ds ≡ false

NoBar-snoc : (ds : Text) (d : ℕ) → NoBar ds → (d == 95) ≡ false → NoBar (ds ++ (d ∷ []))
NoBar-snoc [] d h e = ground (arith, e)
NoBar-snoc (x ∷ ds) d h e = ground (arith, NoBar-snoc ds d)

NoBar-decimal_digits : (fuel n : ℕ) → NoBar (decimal_digits fuel n)
unfolding decimal_digits
NoBar-decimal_digits zero n = refl
NoBar-decimal_digits (suc fuel) n = elim (Bool-cases (ltb n 10)) [
  | inl small ↦ rw small (ground arith)
  | inr big ↦ rw big (
      NoBar-snoc (decimal_digits fuel (n / 10)) (48 + n % 10) (NoBar-decimal_digits fuel (n / 10))
        (ground arith))
]

NoBar-decimal : (n : ℕ) → NoBar (decimal n)
unfolding decimal
NoBar-decimal n = NoBar-decimal_digits (suc n) n

abbrev tail : Text → Text
tail [] = []
tail (x ∷ xs) = xs

abbrev head_or : ℕ → Text → ℕ
head_or d [] = d
head_or d (x ∷ xs) = x

-- The first underscore splits a text in one way.
split_bar :
    (xs ys s t : Text) → NoBar xs → NoBar ys → xs ++ (95 ∷ s) ≡ ys ++ (95 ∷ t) → (xs ≡ ys) × (s ≡ t)
split_bar [] [] s t h k e = (refl, ap tail e)
split_bar [] (y ∷ ys) s t h k e = absurd (ground (arith, ap (head_or 0) e))
split_bar (x ∷ xs) [] s t h k e = absurd (ground (arith, ap (head_or 0) e))
split_bar (x ∷ xs) (y ∷ ys) s t h k e =
    let (a, b) = split_bar xs ys s t (ground (arith, h)) (ground (arith, k)) (ap tail e) in
    (ap₂ ◌∷◌ (ap (head_or 0) e) a, b)

drop_prefix : (a b : Text) → codes "operator_p" ++ a ≡ codes "operator_p" ++ b → a ≡ b
drop_prefix a b e =
    ap (λ s. tail (tail (tail (tail (tail (tail (tail (tail (tail (tail s)))))))))) e

-- Two operators have the same id only if they belong to the same node and are of the same kind.
pub new_operator_id_injective :
    (m n : ℕ) (s t : Text) → new_operator_id m s ≡ new_operator_id n t → (m ≡ n) × (s ≡ t)
unfolding new_operator_id
new_operator_id_injective m n s t e =
    let (a, b) =
      split_bar (decimal m) (decimal n) s t (NoBar-decimal m) (NoBar-decimal n)
        (drop_prefix _ _ e) in
    (sym (read-decimal m) ∙ ap (read 0) a ∙ read-decimal n, b)
