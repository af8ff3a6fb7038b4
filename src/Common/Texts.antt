-- ===== src/Common/Texts.antt =====
-- Rust's `String` as the list of its UTF-8 bytes: equality, the byte order, `sort`.
use Prim.Native.Nat.{ℕ, zero, suc, ◌+◌, ◌/◌, ◌%◌}
use Prim.Native.Char.{code}
use Prim.Native.String.{String}
use mathlib.Core.Path.{◌≡◌, refl, ◌∙◌}
use chapterhouse_qe.Common.Lists.{any}
use mathlib.Core.Logic.{◌↔◌}
use mathlib.Core.Bool.{Bool, true, false, ◌&&◌, ◌||◌}
use mathlib.Core.List.{List, [], ◌∷◌, ◌++◌}
use native.Mathlib.Omega.{arith}
use chapterhouse_qe.Common.Tests.{ltb, ◌==◌, if◌then◌else◌}

abbrev pub Text : Type 0
Text = List ℕ

-- The bytes of an ASCII literal.
abbrev pub codes : String → Text
codes String.[] = []
codes (String.◌∷◌ c s) = code c ∷ codes s

unfoldable pub text_eq : Text → Text → Bool
text_eq [] [] = true
text_eq [] (y ∷ ys) = false
text_eq (x ∷ xs) [] = false
text_eq (x ∷ xs) (y ∷ ys) = x == y && text_eq xs ys

-- The order of `Ord for str`: byte by byte, a prefix first.
unfoldable pub text_le : Text → Text → Bool
text_le [] ys = true
text_le (x ∷ xs) [] = false
text_le (x ∷ xs) (y ∷ ys) = ltb x y || (x == y && text_le xs ys)

pub text_eq_refl : (s : Text) → text_eq s s ≡ true
unfolding text_eq
text_eq_refl [] = refl
text_eq_refl (x ∷ xs) = ground (arith, text_eq_refl xs)

pub text_eq→eq : (s t : Text) → text_eq s t ≡ true → s ≡ t
unfolding text_eq
text_eq→eq [] [] h = refl
text_eq→eq [] (y ∷ ys) h = cc
text_eq→eq (x ∷ xs) [] h = cc
text_eq→eq (x ∷ xs) (y ∷ ys) h = ground (arith, text_eq→eq xs ys)

pub text_eq_iff : (s t : Text) → (text_eq s t ≡ true) ↔ (s ≡ t)
text_eq_iff s t = (text_eq→eq s t, λ e. rw e (text_eq_refl t))

unfoldable pub insert_sorted : Text → List Text → List Text
insert_sorted s [] = s ∷ []
insert_sorted s (t ∷ ts) = if text_le s t then s ∷ t ∷ ts else t ∷ insert_sorted s ts

-- `Vec<String>::sort`.
unfoldable pub sort : List Text → List Text
unfolding insert_sorted
sort [] = []
sort (s ∷ ss) = insert_sorted s (sort ss)

-- `Vec<String> == Vec<String>`.
unfoldable pub texts_eq : List Text → List Text → Bool
texts_eq [] [] = true
texts_eq [] (y ∷ ys) = false
texts_eq (x ∷ xs) [] = false
texts_eq (x ∷ xs) (y ∷ ys) = text_eq x y && texts_eq xs ys

pub texts_eq_refl : (ss : List Text) → texts_eq ss ss ≡ true
unfolding texts_eq
texts_eq_refl [] = refl
texts_eq_refl (x ∷ xs) = ground (arith, text_eq_refl x, texts_eq_refl xs)

pub texts_eq→eq : (ss ts : List Text) → texts_eq ss ts ≡ true → ss ≡ ts
unfolding texts_eq
texts_eq→eq [] [] h = refl
texts_eq→eq [] (y ∷ ys) h = cc
texts_eq→eq (x ∷ xs) [] h = cc
texts_eq→eq (x ∷ xs) (y ∷ ys) h = ground (arith, text_eq→eq x y, texts_eq→eq xs ys)

-- No text stands twice.
abbrev pub Distinct : List Text → Type 0
Distinct [] = Unit {0}
Distinct (t ∷ ts) = (any (text_eq t) ts ≡ false) × Distinct ts

pub text_eq_comm : (s t : Text) → text_eq s t ≡ text_eq t s
unfolding text_eq
text_eq_comm [] [] = refl
text_eq_comm [] (y ∷ ys) = refl
text_eq_comm (x ∷ xs) [] = refl
text_eq_comm (x ∷ xs) (y ∷ ys) = ground (arith, text_eq_comm xs ys)

pub any-insert_sorted :
    (t s : Text) (ts : List Text)
    → any (text_eq t) (insert_sorted s ts) ≡ (text_eq t s || any (text_eq t) ts)
unfolding insert_sorted
any-insert_sorted t s [] = refl
any-insert_sorted t s (u ∷ ts) = ground (arith, any-insert_sorted t s ts)

-- Sorting keeps the members.
pub any-sort : (t : Text) (ts : List Text) → any (text_eq t) (sort ts) ≡ any (text_eq t) ts
unfolding sort
any-sort t [] = refl
any-sort t (u ∷ ts) = ground (arith, any-sort t ts, any-insert_sorted t u (sort ts))

pub insert_sorted-Distinct :
    (s : Text) (ts : List Text)
    → any (text_eq s) ts ≡ false
    → Distinct ts
    → Distinct (insert_sorted s ts)
unfolding insert_sorted
insert_sorted-Distinct s [] h d = (refl, tt)
insert_sorted-Distinct s (u ∷ ts) h d =
    ground (arith, insert_sorted-Distinct s ts, any-insert_sorted u s ts, text_eq_comm s u)

pub sort-Distinct : (ts : List Text) → Distinct ts → Distinct (sort ts)
unfolding sort
sort-Distinct [] d = tt
sort-Distinct (u ∷ ts) d =
    insert_sorted-Distinct u (sort ts) (any-sort u ts ∙ d.0) (sort-Distinct ts d.1)

unfoldable pub decimal_digits : ℕ → ℕ → Text
decimal_digits zero n = []
decimal_digits (suc fuel) n =
    let more = decimal_digits fuel (n / 10) ++ ((48 + n % 10) ∷ []) in
    if ltb n 10 then (48 + n) ∷ [] else more

-- `format!("{}", n)`. Each round takes a digit off, so `n` rounds and one are enough.
unfoldable pub decimal : ℕ → Text
unfolding decimal_digits
decimal n = decimal_digits (suc n) n
