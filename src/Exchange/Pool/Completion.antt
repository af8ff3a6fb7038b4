-- ===== src/Exchange/Pool/Completion.antt =====
-- `operator_completed_record_processing` keeps the invariant, and its two internal failures do not
-- occur under it.
use chapterhouse_qe.Common.{
  ℕ, ◌≡◌, refl, sym, ap, ◌∙◌, subst, Bool, true, false, some, List, [], ◌∷◌, arith, inl, inr, ◌⊎◌,
  ◌==◌, ◌&&◌, any, any-append, All, Text, text_eq, text_eq_refl, text_eq_comm, texts_eq,
  texts_eq→eq, sort, any-sort, Distinct, Bool-cases, Option-cases, length, Outcome, ok, err,
}
use chapterhouse_qe.Common.Map
use chapterhouse_qe.External.{External}
use chapterhouse_qe.Exchange.Pool.Queues.{
  OperatorRecordQueue, drop_reservation, find_queue, set_queue, ids, find_queue_id, find_queue-All,
  ids-set_queue, set_queue-All,
}
use chapterhouse_qe.Exchange.Pool.{
  RecordRef, RecordPool, RecordPoolError, operator_does_not_exist,
  reserved_record_instance_missing_for_operator, add_operator, mark_processed, finish,
  operator_completed_record_processing,
}
use chapterhouse_qe.Exchange.Pool.Tickets.{IsBalanced, Inv}

any_flip : (t : Text) (ts : List Text) → any (λ item. text_eq item t) ts ≡ any (text_eq t) ts
any_flip t [] = refl
any_flip t (x ∷ ts) = ground (arith, any_flip t ts, text_eq_comm x t)

-- Every queue's operator is in a list that has all the ids.
owners_in :
    (pbo : List Text) (qs : List OperatorRecordQueue)
    → ((t : Text) → any (text_eq t) (ids qs) ≡ true → any (text_eq t) pbo ≡ true)
    → All (λ q. any (λ item. text_eq item q.operator_id) pbo ≡ true) qs
owners_in pbo [] h = tt
owners_in pbo (q ∷ qs) h = (
  any_flip q.operator_id pbo ∙ h q.operator_id (rw text_eq_refl refl),
  owners_in pbo qs (λ t m. h t (ground arith)),
)

-- The answers that a consumer can get to a completion.
abbrev pub Answers : Text → Outcome RecordPoolError (Unit {0}) → Type 0
Answers op res =
    (res ≡ ok tt)
    ⊎ (res ≡ err (operator_does_not_exist op))
    ⊎ (res ≡ err (reserved_record_instance_missing_for_operator op))

module _ {X : External} where
  -- The operator's own queue: the ticket goes from the reservation to the record.
  drop_reservation-IsBalanced :
      (records : List (ℕ × RecordRef X)) (q : OperatorRecordQueue) (r : ℕ) (rec : RecordRef X)
      → Map.get r records ≡ some rec
      → Map.held (Map.get r q.records_reserved_by_operator) ≡ 1
      → IsBalanced records q
      → IsBalanced (Map.insert r (add_operator rec q.operator_id) records) (drop_reservation r q)
  unfolding drop_reservation add_operator
  drop_reservation-IsBalanced records q r rec found res h = record {
    balance = λ s. rw Map.held-remove (
        ground (
          arith,
          h.balance s,
          h.balance r,
          Map.get-insert r s (add_operator rec q.operator_id) records,
          any-append (λ (item : Text). text_eq item q.operator_id) rec.processed_by_operators
              (q.operator_id ∷ []),
          text_eq_refl q.operator_id,
        ));
    metrics = λ s. rw (Map.held-remove, Map.held-remove) (ground (arith, h.metrics s));
    single = λ s. rw Map.copies-remove (ground (arith, h.single s));
  }

  -- The queue of another operator does not notice.
  add_operator-IsBalanced :
      (records : List (ℕ × RecordRef X)) (r : ℕ) (rec : RecordRef X) (op : Text)
      → Map.get r records ≡ some rec
      → (x : OperatorRecordQueue) → text_eq x.operator_id op ≡ false
      → IsBalanced records x
      → IsBalanced (Map.insert r (add_operator rec op) records) x
  unfolding add_operator
  add_operator-IsBalanced records r rec op found x other h = record {
    balance = λ s. ground (
      arith,
      h.balance s,
      Map.get-insert r s (add_operator rec op) records,
      any-append (λ (item : Text). text_eq item x.operator_id) rec.processed_by_operators (op ∷ []),
      text_eq_comm x.operator_id op,
    );
    metrics = h.metrics;
    single = h.single;
  }

  -- A record that every operator has processed may be dropped.
  remove-All :
      (records : List (ℕ × RecordRef X)) (r : ℕ) (rec : RecordRef X) (qs : List OperatorRecordQueue)
      → Map.get r records ≡ some rec
      → All (λ q. any (λ item. text_eq item q.operator_id) rec.processed_by_operators ≡ true) qs
      → All (IsBalanced records) qs
      → All (IsBalanced (Map.remove r records)) qs
  remove-All records r rec [] found all h = tt
  remove-All records r rec (q ∷ qs) found all h = (
    record {
      balance = λ s. ground (arith, h.0.balance s, Map.get-remove r s records, all.0);
      metrics = h.0.metrics;
      single = h.0.single;
    },
    remove-All records r rec qs found all.1 h.1,
  )

  -- What `mark_processed` leaves, by whether the record is complete.
  abbrev with_records : RecordPool X → List (ℕ × RecordRef X) → RecordPool X
  with_records p records = record p { records = records }

  mark_processed_cases :
      (p : RecordPool X) (op : Text) (r : ℕ) (rec : RecordRef X)
      → any (λ item. text_eq item op) rec.processed_by_operators ≡ false
      → let records = Map.insert r (add_operator rec op) p.records in
        (mark_processed p op r rec ≡ (with_records p records, ok tt))
        ⊎ ((sort (add_operator rec op).processed_by_operators ≡ p.operator_ids)
            × (mark_processed p op r rec ≡ (with_records p (Map.remove r records), ok tt)))
  unfolding mark_processed
  mark_processed_cases p op r rec new = elim (Bool-cases complete) [
    | inl e ↦ inr (texts_eq→eq _ _ (ground arith), rw (new, e))
    | inr e ↦ inl (rw (new, e))
  ]
    where
      complete : Bool
      complete =
          length (add_operator rec op).processed_by_operators == length p.operator_ids
          && texts_eq (sort (add_operator rec op).processed_by_operators) p.operator_ids

  All-owners :
      (p : RecordPool X) (rec : RecordRef X)
      → Inv p
      → sort rec.processed_by_operators ≡ p.operator_ids
      → All
          (λ q. any (λ item. text_eq item q.operator_id) rec.processed_by_operators ≡ true)
          p.operator_record_queues
  All-owners p rec v e = owners_in rec.processed_by_operators p.operator_record_queues (λ t m.
      sym (any-sort t rec.processed_by_operators) ∙ ap (any (text_eq t)) (e ∙ sym v.owners) ∙ m)

  finish_found-Inv :
      (p : RecordPool X) (op : Text) (r : ℕ) (q : OperatorRecordQueue) (rec : RecordRef X)
      → find_queue op p.operator_record_queues ≡ some q
      → Map.held (Map.get r q.records_reserved_by_operator) ≡ 1
      → Map.get r p.records ≡ some rec
      → Inv p
      → let p' = record p {
        operator_record_queues = set_queue op (drop_reservation r q) p.operator_record_queues;
      } in
        Inv (mark_processed p' op r rec).0 × ((mark_processed p' op r rec).1 ≡ ok tt)
  finish_found-Inv p op r q rec e res found v = elim (mark_processed_cases p' op r rec new) [
    | inl kept ↦ rw kept (marked_Inv, refl)
    | inr (complete, dropped) ↦ rw dropped (
      record {
        owners = marked_Inv.owners;
        distinct = v.distinct;
        balanced =
            remove-All marked r (add_operator rec op) p'.operator_record_queues
              (rw Map.get-insert (ground arith))
              (All-owners (with_records p' marked) (add_operator rec op) marked_Inv complete)
              marked_Inv.balanced;
      },
      refl,
    )
  ]
    where
      p' : RecordPool X
      p' = record p {
        operator_record_queues = set_queue op (drop_reservation r q) p.operator_record_queues;
      }

      marked : List (ℕ × RecordRef X)
      marked = Map.insert r (add_operator rec op) p.records

      owner : q.operator_id ≡ op
      owner = find_queue_id op p.operator_record_queues q e

      held_q : IsBalanced p.records q
      held_q = find_queue-All (IsBalanced p.records) op p.operator_record_queues q e v.balanced

      new : any (λ item. text_eq item op) rec.processed_by_operators ≡ false
      new =
          subst (λ t. any (λ item. text_eq item t) rec.processed_by_operators ≡ false) owner
            (ground (arith, held_q.balance r))

      marked_Inv : Inv (with_records p' marked)
      marked_Inv = record {
        owners =
            ids-set_queue op (drop_reservation r q) p.operator_record_queues
              (unfold drop_reservation in owner)
            ∙ v.owners;
        distinct = v.distinct;
        balanced =
            set_queue-All {P = IsBalanced p.records} op (drop_reservation r q)
              (add_operator-IsBalanced p.records r rec op found) p.operator_record_queues
              (subst Distinct (sym v.owners) v.distinct)
              (subst
                (λ t.
                  IsBalanced (Map.insert r (add_operator rec t) p.records) (drop_reservation r q))
                owner (drop_reservation-IsBalanced p.records q r rec found res held_q))
              v.balanced;
      }

  finish-Inv :
      (p : RecordPool X) (op : Text) (r : ℕ) (q : OperatorRecordQueue)
      → find_queue op p.operator_record_queues ≡ some q
      → Inv p
      → Inv (finish p op r q).0 × Answers op (finish p op r q).1
  unfolding finish
  finish-Inv p op r q e v = elim (Option-cases (Map.get r q.records_reserved_by_operator)) [
    | inl none_res ↦ rw (none_res, finish) (v, inr (inr refl))
    | inr (res, found_res) ↦ elim (Option-cases (Map.get r p.records)) [
      | inl lost ↦ absurd (ground (arith, held_q.balance r))
      | inr (rec, found) ↦
          let (i, a) = finish_found-Inv p op r q rec e (rw found_res) found v in
          rw (found_res, found, finish) (i, inl a)
    ]
  ]
    where
      held_q : IsBalanced p.records q
      held_q = find_queue-All (IsBalanced p.records) op p.operator_record_queues q e v.balanced

  -- A completion keeps the invariant; of its errors only the two that a consumer causes are met.
  pub completed-Inv :
      (p : RecordPool X) (op : Text) (r : ℕ)
      → Inv p
      → Inv (operator_completed_record_processing p op r).0
        × Answers op (operator_completed_record_processing p op r).1
  unfolding operator_completed_record_processing
  completed-Inv p op r v = elim (Option-cases (find_queue op p.operator_record_queues)) [
    | inl e ↦ rw (e, operator_completed_record_processing) (v, inr (inl refl))
    | inr (q, e) ↦ rw (e, operator_completed_record_processing) (finish-Inv p op r q e v)
  ]
