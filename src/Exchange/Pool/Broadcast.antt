-- ===== src/Exchange/Pool/Broadcast.antt =====
-- What a consuming operator receives, in order: an exchange is a broadcast queue.
use chapterhouse_qe.Common.{
  ℕ, ◌≡◌, refl, sym, ap, ◌∙◌, true, false, some, List, [], ◌∷◌, ◌++◌, map, arith, inl, inr, Text,
  text_eq, text_eq_comm, any, any-sort, sort, Distinct, Bool-cases, append-nil, append_assoc,
}
use chapterhouse_qe.External.{External}
use chapterhouse_qe.Exchange.Pool.Queues.{OperatorRecordQueue, find_queue, empty_queue, ids}
use chapterhouse_qe.Exchange.Pool.{
  RecordPool, Delivery, add_record, reserve, get_next_record, new, mark_processed, finish, maintain,
  requeue_reserved_records_with_stale_heartbeat, operator_completed_record_processing,
  update_reserved_record_heartbeat,
}
use chapterhouse_qe.Exchange.Pool.Calls.{
  Call, adds, gets, completes, beats, maintains, step, IsFresh, step-Inv,
}
use chapterhouse_qe.Exchange.Pool.Tickets.{Inv}
use chapterhouse_qe.Exchange.Pool.Invariant.{new-Inv}
use chapterhouse_qe.Exchange.Pool.Waiting.{to_process, waiting, is_maintenance}
use chapterhouse_qe.Exchange.Pool.Contents.{contents, waiting_records, given, sent}
use chapterhouse_qe.Exchange.Pool.Handing.{step-records}

to_process-empty :
    (op : Text) (us : List Text) → to_process (find_queue op (map empty_queue us)) ≡ []
unfolding find_queue empty_queue
to_process-empty op [] = refl
to_process-empty op (u ∷ us) = elim (Bool-cases (text_eq u op)) [
  | inl e ↦ rw e
  | inr e ↦ rw e (to_process-empty op us)
]

find_of_owner :
    (op : Text) (qs : List OperatorRecordQueue)
    → any (text_eq op) (ids qs) ≡ true
    → (q : OperatorRecordQueue) × (find_queue op qs ≡ some q)
unfolding find_queue
find_of_owner op [] h = absurd (cc)
find_of_owner op (x ∷ qs) h = elim (Bool-cases (text_eq x.operator_id op)) [
  | inl own ↦ (x, rw own)
  | inr other ↦ rw other (find_of_owner op qs (ground (arith, text_eq_comm op x.operator_id)))
]

module _ {X : External} where
  step_operator_ids : (p : RecordPool X) (c : Call X) → (step p c).operator_ids ≡ p.operator_ids
  unfolding step add_record update_reserved_record_heartbeat get_next_record reserve
      operator_completed_record_processing finish mark_processed maintain
      requeue_reserved_records_with_stale_heartbeat
  step_operator_ids p (adds r batch aliases) = refl
  step_operator_ids p (gets o inst now) = ground arith
  step_operator_ids p (completes o r) = ground arith
  step_operator_ids p (beats o r now) = refl
  step_operator_ids p (maintains now) = refl

  unfoldable pub run : RecordPool X → List (Call X) → RecordPool X
  unfolding step
  run p [] = p
  run p (c ∷ cs) = run (step p c) cs

  -- All records that the operator's instances are given, with their ids, batches and aliases, in order.
  unfoldable pub delivered : Text → RecordPool X → List (Call X) → List (Delivery X)
  unfolding step
  delivered op p [] = []
  delivered op p (c ∷ cs) = given op p c ++ delivered op (step p c) cs

  unfoldable pub sent_all : List (Call X) → List (Delivery X)
  sent_all [] = []
  sent_all (c ∷ cs) = sent c ++ sent_all cs

  -- Each call is fresh when it is made, and none is maintenance.
  abbrev pub AllPlain : RecordPool X → List (Call X) → Type 0
  AllPlain p [] = Unit {0}
  AllPlain p (c ∷ cs) = IsFresh p c × (is_maintenance c ≡ false) × AllPlain (step p c) cs

  delivered-run :
      (op : Text) (p : RecordPool X) (cs : List (Call X))
      → Inv p
      → any (text_eq op) p.operator_ids ≡ true
      → AllPlain p cs
      → delivered op p cs ++ waiting_records op (run p cs) ≡ waiting_records op p ++ sent_all cs
  unfolding delivered run sent_all
  delivered-run op p [] v m h = sym (append-nil _)
  delivered-run op p (c ∷ cs) v m (f, n, h) =
      let (q, e) = find_of_owner op p.operator_record_queues (ap (any (text_eq op)) v.owners ∙ m) in
      append_assoc (given op p c) (delivered op (step p c) cs)
        (waiting_records op (run (step p c) cs))
      ∙ ap (◌++◌ (given op p c)) (
          delivered-run op (step p c) cs (step-Inv p c f v)
            (ap (any (text_eq op)) (step_operator_ids p c) ∙ m) h)
      ∙ sym (append_assoc (given op p c) (waiting_records op (step p c)) (sent_all cs))
      ∙ ap (λ xs. xs ++ sent_all cs) (step-records op p c e n f v)
      ∙ append_assoc (waiting_records op p) (sent c) (sent_all cs)

module _ (X : External) where
  waiting-new : (op : Text) (ts : List Text) (limit : ℕ) → waiting op (new {X = X} ts limit) ≡ []
  unfolding new
  waiting-new op ts limit = to_process-empty op (sort ts)

module _ {X : External} where
  -- An exchange is a broadcast queue: from its start, by calls of which none is maintenance and none sends
  -- a record whose id is still in the pool, the records that the instances of one consumer are given
  -- together, followed by those that still wait for that consumer, are exactly the records that were
  -- sent, in order, each with its id, its batch and its table aliases.
  pub delivered-new :
      (op : Text) (ts : List Text) (limit : ℕ) (cs : List (Call X))
      → Distinct ts
      → any (text_eq op) ts ≡ true
      → AllPlain (new ts limit) cs
      → delivered op (new ts limit) cs ++ waiting_records op (run (new ts limit) cs) ≡ sent_all cs
  delivered-new op ts limit cs d m h =
      delivered-run op (new ts limit) cs (new-Inv ts limit d) (unfold new in any-sort op ts ∙ m) h
      ∙ ap (λ xs. xs ++ sent_all cs)
          (ap (contents (new {X = X} ts limit).records) (waiting-new X op ts limit))
