-- ===== src/Exchange/Pool/Contents.antt =====
-- The records behind the ids that wait in a queue, and behind those that a call takes and hands out.
use chapterhouse_qe.Common.{
  ℕ, ◌≤◌, ◌≡◌, refl, sym, ap, ◌∙◌, Option, none, some, List, [], ◌∷◌, ◌++◌, arith, inl, inr, any,
  length, texts_eq, sort, ◌&&◌, if◌then◌else◌, ◌==◌, All, Text, text_eq, Bool-cases, Option-cases,
  Outcome, ok, err, panic, append_assoc,
}
use chapterhouse_qe.Common.Map
use chapterhouse_qe.External.{External}
use chapterhouse_qe.Exchange.Pool.Queues.{OperatorRecordQueue, find_queue}
use chapterhouse_qe.Exchange.Pool.{
  RecordRef, RecordPool, RecordPoolError, Delivery, get_next_record, add_operator, mark_processed,
  finish, operator_completed_record_processing,
}
use chapterhouse_qe.Exchange.Pool.Calls.{Call, adds, gets, completes, beats, maintains}
use chapterhouse_qe.Exchange.Pool.Tickets.{count, IsBalanced}
use chapterhouse_qe.Exchange.Pool.Waiting.{to_process, waiting}

abbrev pub received_records : {A : Type 0} → Outcome RecordPoolError (Option A) → List A
received_records (ok (some d)) = d ∷ []
received_records (ok none) = []
received_records (err e) = []
received_records panic = []

module _ {X : External} where
  abbrev delivery_of : ℕ → Option (RecordRef X) → List (Delivery X)
  delivery_of r none = []
  delivery_of r (some rec) = (r, rec.batch, rec.table_aliases) ∷ []

  abbrev content : List (ℕ × RecordRef X) → ℕ → List (Delivery X)
  content m r = delivery_of r (Map.get r m)

  -- What the pool stores under some ids.
  abbrev pub contents : List (ℕ × RecordRef X) → List ℕ → List (Delivery X)
  contents m [] = []
  contents m (r ∷ rs) = content m r ++ contents m rs

  -- The records, with their ids, batches and aliases, that wait for an operator.
  abbrev pub waiting_records : Text → RecordPool X → List (Delivery X)
  waiting_records op p = contents p.records (waiting op p)

  -- The record that a call hands to an instance of the operator.
  abbrev pub given : Text → RecordPool X → Call X → List (Delivery X)
  given op p (adds r batch aliases) = []
  given op p (gets o inst now) =
      if text_eq o op then received_records (get_next_record p o inst now).1 else []
  given op p (completes o r) = []
  given op p (beats o r now) = []
  given op p (maintains now) = []

  abbrev pub sent : Call X → List (Delivery X)
  sent (adds r batch aliases) = (r, batch, aliases) ∷ []
  sent (gets o inst now) = []
  sent (completes o r) = []
  sent (beats o r now) = []
  sent (maintains now) = []

  pub contents-append :
      (m : List (ℕ × RecordRef X)) (xs ys : List ℕ)
      → contents m (xs ++ ys) ≡ contents m xs ++ contents m ys
  contents-append m [] ys = refl
  contents-append m (x ∷ xs) ys =
      ap (λ zs. content m x ++ zs) (contents-append m xs ys)
      ∙ sym (append_assoc (content m x) (contents m xs) (contents m ys))

  pub contents_agree :
      (k m m' : List (ℕ × RecordRef X)) (xs : List ℕ)
      → ((r : ℕ) → count r xs ≤ Map.held (Map.get r k))
      → ((r : ℕ) → 1 ≤ Map.held (Map.get r k) → content m' r ≡ content m r)
      → contents m' xs ≡ contents m xs
  contents_agree k m m' [] h agree = refl
  contents_agree k m m' (x ∷ xs) h agree =
      let rest = contents_agree k m m' xs (λ r. let all = h r in ground (arith, all)) agree in
      let here = h x in let first = agree x (ground (arith, here)) in rw (first, rest) refl

  -- The ids of a queue have records.
  pub find-balanced :
      (m : List (ℕ × RecordRef X)) (op : Text) (qs : List OperatorRecordQueue)
      → All (IsBalanced m) qs
      → (r : ℕ) → count r (to_process (find_queue op qs)) ≤ Map.held (Map.get r m)
  unfolding find_queue
  find-balanced m op [] h r = omega arith
  find-balanced m op (q ∷ qs) h r = elim (Bool-cases (text_eq q.operator_id op)) [
    | inl e ↦ let b = h.0.balance r in rw e (omega (arith, b))
    | inr e ↦ rw e (find-balanced m op qs h.1 r)
  ]

  pub added-content :
      (m : List (ℕ × RecordRef X)) (r : ℕ) (rec : RecordRef X) (x : ℕ)
      → Map.get r m ≡ none
      → 1 ≤ Map.held (Map.get x m)
      → content (Map.insert r rec m) x ≡ content m x
  added-content m r rec x fresh h = elim (Bool-cases (r == x)) [
    | inl e ↦
        let same : r ≡ x = ground (arith, e) in
        let absent : Map.get x m ≡ none = ap (λ t. Map.get t m) (sym same) ∙ fresh in
        absurd (ground (arith, h, absent))
    | inr e ↦ rw (Map.get-insert, e) refl
  ]

  -- What the second map holds, it holds like the first.
  unfoldable pub Keeps : List (ℕ × RecordRef X) → List (ℕ × RecordRef X) → Type 0
  Keeps m m' = (x : ℕ) → 1 ≤ Map.held (Map.get x m') → content m' x ≡ content m x

  Keeps-refl : (m : List (ℕ × RecordRef X)) → Keeps m m
  unfolding Keeps
  Keeps-refl m x h = refl

  processed-Keeps :
      (m : List (ℕ × RecordRef X)) (r : ℕ) (rec : RecordRef X) (o : Text)
      → Map.get r m ≡ some rec
      → Keeps m (Map.insert r (add_operator rec o) m)
  unfolding Keeps add_operator
  processed-Keeps m r rec o found x h = elim (Bool-cases (r == x)) [
    | inl e ↦
        let same : r ≡ x = ground (arith, e) in
        let there : Map.get x m ≡ some rec = ap (λ t. Map.get t m) (sym same) ∙ found in
        rw (Map.get-insert, e, there) refl
    | inr e ↦ rw (Map.get-insert, e) refl
  ]

  removed-Keeps : (m m' : List (ℕ × RecordRef X)) (r : ℕ) → Keeps m m' → Keeps m (Map.remove r m')
  unfolding Keeps
  removed-Keeps m m' r k x = elim (Bool-cases (r == x)) [
    | inl e ↦ rw (Map.get-remove, e) (λ h. absurd (omega (arith, h)))
    | inr e ↦ rw (Map.get-remove, e) (k x)
  ]

  mark_processed-Keeps :
      (p : RecordPool X) (o : Text) (r : ℕ) (rec : RecordRef X)
      → Map.get r p.records ≡ some rec
      → Keeps p.records (mark_processed p o r rec).0.records
  unfolding mark_processed
  mark_processed-Keeps p o r rec found =
      let pbo = rec.processed_by_operators ++ (o ∷ []) in
      let more = processed-Keeps p.records r rec o found in
      elim (Bool-cases (any (λ item. text_eq item o) rec.processed_by_operators)) [
        | inl e ↦ rw (e, mark_processed) (Keeps-refl p.records)
        | inr e ↦
            elim (Bool-cases
              (length pbo == length p.operator_ids && texts_eq (sort pbo) p.operator_ids)) [
                | inl f ↦
                    rw (e, f, mark_processed, add_operator)
                      (removed-Keeps p.records (Map.insert r (add_operator rec o) p.records) r more)
                | inr f ↦ rw (e, f, mark_processed, add_operator) more
              ]
      ]

  pub completed-Keeps :
      (p : RecordPool X) (o : Text) (r : ℕ)
      → Keeps p.records (operator_completed_record_processing p o r).0.records
  unfolding operator_completed_record_processing finish
  completed-Keeps p o r = elim (Option-cases (find_queue o p.operator_record_queues)) [
    | inl e ↦ rw (e, operator_completed_record_processing) (Keeps-refl p.records)
    | inr (q, e) ↦ elim (Option-cases (Map.get r q.records_reserved_by_operator)) [
      | inl f ↦ rw (e, f, operator_completed_record_processing, finish) (Keeps-refl p.records)
      | inr (res, f) ↦ elim (Option-cases (Map.get r p.records)) [
        | inl g ↦ rw (e, f, g, operator_completed_record_processing, finish) (Keeps-refl p.records)
        | inr (rec, g) ↦
            rw (e, f, g, operator_completed_record_processing, finish)
              (mark_processed-Keeps _ o r rec g)
      ]
    ]
  ]
