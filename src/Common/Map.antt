-- ===== src/Common/Map.antt =====
-- `HashMap<u64, V>` and `HashMap<usize, V>` as association lists. The order of the entries stands
-- for the unspecified order in which a map is iterated.
use Prim.Native.Nat.{ℕ, ◌+◌}
use mathlib.Core.Path.{◌≡◌, refl}
use mathlib.Core.List.{List, [], ◌∷◌}
use mathlib.Core.Option.{Option, none, some}
use native.Mathlib.Omega.{arith}
use chapterhouse_qe.Common.Tests.{◌==◌, if◌then◌else◌}

module _ {ℓ} {V : Type ℓ} where
  unfoldable pub get : ℕ → List (ℕ × V) → Option V
  get k [] = none
  get k ((j, v) ∷ m) = if j == k then some v else get k m

  -- The old value is replaced.
  unfoldable pub insert : ℕ → V → List (ℕ × V) → List (ℕ × V)
  insert k v [] = (k, v) ∷ []
  insert k v ((j, w) ∷ m) = if j == k then (k, v) ∷ m else (j, w) ∷ insert k v m

  unfoldable pub remove : ℕ → List (ℕ × V) → List (ℕ × V)
  remove k [] = []
  remove k ((j, w) ∷ m) = if j == k then remove k m else (j, w) ∷ remove k m

  pub get-insert :
      (k j : ℕ) (v : V) (m : List (ℕ × V))
      → get j (insert k v m) ≡ (if k == j then some v else get j m)
  unfolding get insert
  get-insert k j v [] = refl
  get-insert k j v ((i, w) ∷ m) = ground (arith, get-insert k j v m)

  pub get-remove :
      (k j : ℕ) (m : List (ℕ × V)) → get j (remove k m) ≡ (if k == j then none else get j m)
  unfolding get remove
  get-remove k j [] = ground arith
  get-remove k j ((i, w) ∷ m) = ground (arith, get-remove k j m)

-- 1 for a key that is there, 0 for one that is not.
abbrev pub held {ℓ} : {V : Type ℓ} → Option V → ℕ
held none = 0
held (some v) = 1

module _ {ℓ} {V : Type ℓ} where
  pub held-insert :
      (k j : ℕ) (v : V) (m : List (ℕ × V))
      → held (get j (insert k v m)) ≡ (if k == j then 1 else held (get j m))
  held-insert k j v m = ground (arith, get-insert k j v m)

  pub held-remove :
      (k j : ℕ) (m : List (ℕ × V))
      → held (get j (remove k m)) ≡ (if k == j then 0 else held (get j m))
  held-remove k j m = ground (arith, get-remove k j m)

-- How many entries a key has: a map has one at most.
abbrev pub copies {ℓ} : {V : Type ℓ} → ℕ → List (ℕ × V) → ℕ
copies k [] = 0
copies k ((j, v) ∷ m) = if j == k then copies k m + 1 else copies k m

module _ {ℓ} {V : Type ℓ} where
  pub copies-insert :
      (k j : ℕ) (v : V) (m : List (ℕ × V))
      → copies j (insert k v m)
        ≡ (if k == j then (if copies j m == 0 then 1 else copies j m) else copies j m)
  unfolding insert
  copies-insert k j v [] = ground arith
  copies-insert k j v ((i, w) ∷ m) = ground (arith, copies-insert k j v m)

  pub copies-remove :
      (k j : ℕ) (m : List (ℕ × V)) → copies j (remove k m) ≡ (if k == j then 0 else copies j m)
  unfolding remove
  copies-remove k j [] = ground arith
  copies-remove k j ((i, w) ∷ m) = ground (arith, copies-remove k j m)

  pub copies_absent : (k : ℕ) (m : List (ℕ × V)) → get k m ≡ none → copies k m ≡ 0
  unfolding get
  copies_absent k [] h = refl
  copies_absent k ((i, w) ∷ m) h = ground (arith, copies_absent k m)
