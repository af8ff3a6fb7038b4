-- ===== src/Exchange/Pool/Invariant.antt =====
-- The operations keep the invariant of a record pool.
use chapterhouse_qe.Common.{
  ℕ, ◌≡◌, ◌≢◌, refl, sym, ap, ◌∙◌, subst, none, some, List, [], ◌∷◌, map, arith, inl, inr, All,
  Text, sort, sort-Distinct, Distinct, Option-cases, panic,
}
use chapterhouse_qe.Common.Map
use chapterhouse_qe.External.{External}
use chapterhouse_qe.Exchange.Pool.Queues.{
  OperatorRecordQueue, empty_queue, push_back, reserve_record, find_queue, ids, find_queue_id,
  find_queue-All, ids-set_queue, set_queue-All,
}
use chapterhouse_qe.Exchange.Pool.{RecordRef, RecordPool, new, add_record, reserve, get_next_record}
use chapterhouse_qe.Exchange.Pool.Tickets.{count, count-append, IsBalanced, Inv}

ids-empty_queue : (ts : List Text) → ids (map empty_queue ts) ≡ ts
unfolding empty_queue
ids-empty_queue [] = refl
ids-empty_queue (t ∷ ts) = rw (ids-empty_queue ts)

ids-push_back : (r : ℕ) (qs : List OperatorRecordQueue) → ids (map (push_back r) qs) ≡ ids qs
unfolding push_back
ids-push_back r [] = refl
ids-push_back r (q ∷ qs) = rw (ids-push_back r qs)

empty_queue-All : (X : External) (ts : List Text) → All (IsBalanced {X = X} []) (map empty_queue ts)
unfolding empty_queue Map.get
empty_queue-All X [] = tt
empty_queue-All X (t ∷ ts) = (
  record { balance = λ r. omega arith; metrics = λ r. omega arith; single = λ r. omega arith },
  empty_queue-All X ts,
)

module _ {X : External} where
  pub new-Inv : (ts : List Text) (limit : ℕ) → Distinct ts → Inv (new {X = X} ts limit)
  unfolding new
  new-Inv ts limit d = record {
    owners = ids-empty_queue (sort ts);
    distinct = sort-Distinct ts d;
    balanced = empty_queue-All X (sort ts);
  }

  push_back-All :
      (r : ℕ) (rec : RecordRef X) (records : List (ℕ × RecordRef X)) (qs : List OperatorRecordQueue)
      → Map.get r records ≡ none
      → rec.processed_by_operators ≡ []
      → All (IsBalanced records) qs
      → All (IsBalanced (Map.insert r rec records)) (map (push_back r) qs)
  unfolding push_back
  push_back-All r rec records [] fresh e h = tt
  push_back-All r rec records (q ∷ qs) fresh e h = (
    record {
      balance = λ s. ground (
        arith,
        h.0.balance s,
        Map.get-insert r s rec records,
        count-append s q.records_to_process (r ∷ []),
      );
      metrics = h.0.metrics;
      single = h.0.single;
    },
    push_back-All r rec records qs fresh e h.1,
  )

  -- A record whose id is not in the pool may be added.
  pub add_record-Inv :
      (p : RecordPool X) (r : ℕ) (batch : X.RecordBatch) (aliases : List (List Text))
      → Map.get r p.records ≡ none
      → Inv p
      → Inv (add_record p r batch aliases)
  unfolding add_record
  add_record-Inv p r batch aliases fresh v = record {
    owners = ids-push_back r p.operator_record_queues ∙ v.owners;
    distinct = v.distinct;
    balanced = push_back-All r _ p.records p.operator_record_queues fresh refl v.balanced;
  }

  reserve_record-IsBalanced :
      (records : List (ℕ × RecordRef X)) (q : OperatorRecordQueue) (r : ℕ) (rest : List ℕ)
      (inst now : ℕ)
      → q.records_to_process ≡ r ∷ rest
      → IsBalanced records q
      → IsBalanced records (reserve_record r rest inst now q)
  unfolding reserve_record
  reserve_record-IsBalanced records q r rest inst now e h = record {
    balance = λ s. rw Map.held-insert (ground (arith, h.balance s, ap (count s) e));
    metrics = λ s. rw (Map.held-insert, Map.held-insert) (ground (arith, h.metrics s));
    single = λ s. rw Map.copies-insert (ground (arith, h.single s));
  }

  -- A queued record is in the pool.
  stored_of_queued :
      (records : List (ℕ × RecordRef X)) (q : OperatorRecordQueue) (r : ℕ) (rest : List ℕ)
      → q.records_to_process ≡ r ∷ rest
      → IsBalanced records q
      → Map.get r records ≢ none
  stored_of_queued records q r rest e h n = absurd (ground (arith, h.balance r, ap (count r) e))

  reserve-Inv :
      (p : RecordPool X) (op : Text) (inst now : ℕ) (q : OperatorRecordQueue) (xs : List ℕ)
      → find_queue op p.operator_record_queues ≡ some q
      → q.records_to_process ≡ xs
      → Inv p
      → Inv (reserve p op inst now q xs).0 × ((reserve p op inst now q xs).1 ≢ panic)
  unfolding reserve
  reserve-Inv p op inst now q [] e h v = (v, λ k. cc)
  reserve-Inv p op inst now q (r ∷ rest) e h v = elim (Option-cases (Map.get r p.records)) [
    | inl lost ↦ absurd (stored_of_queued p.records q r rest h held_q lost)
    | inr (rec, found) ↦
        rw (found, reserve)
          (
            record {
              owners = ids-set_queue op q' p.operator_record_queues owner ∙ v.owners;
              distinct = v.distinct;
              balanced =
                  set_queue-All {P = IsBalanced p.records} op q' (λ x _ b. b)
                    p.operator_record_queues (subst Distinct (sym v.owners) v.distinct)
                    (reserve_record-IsBalanced p.records q r rest inst now h held_q) v.balanced;
            },
            λ k. cc,
          )
  ]
    where
      held_q : IsBalanced p.records q
      held_q = find_queue-All (IsBalanced p.records) op p.operator_record_queues q e v.balanced

      q' : OperatorRecordQueue
      q' = reserve_record r rest inst now q

      owner : q'.operator_id ≡ op
      owner = unfold reserve_record in find_queue_id op p.operator_record_queues q e

  -- A consumer's request keeps the invariant, and never meets a queued record that the pool has lost.
  pub get_next_record-Inv :
      (p : RecordPool X) (op : Text) (inst now : ℕ)
      → Inv p
      → Inv (get_next_record p op inst now).0 × ((get_next_record p op inst now).1 ≢ panic)
  unfolding get_next_record
  get_next_record-Inv p op inst now v =
      elim (Option-cases (find_queue op p.operator_record_queues)) [
        | inl e ↦ rw (e, get_next_record) (v, λ k. cc)
        | inr (q, e) ↦
            rw (e, get_next_record) (reserve-Inv p op inst now q q.records_to_process e refl v)
      ]
