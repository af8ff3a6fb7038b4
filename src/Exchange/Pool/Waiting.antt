-- ===== src/Exchange/Pool/Waiting.antt =====
-- One call and the queue of one consuming operator.
use chapterhouse_qe.Common.{
  ℕ, ◌≡◌, refl, sym, ap, ◌∙◌, Bool, true, false, Option, none, some, List, [], ◌∷◌, ◌++◌, map,
  arith, inl, inr, if◌then◌else◌, Text, text_eq, text_eq→eq, Bool-cases, Option-cases, Outcome, ok,
  err, panic, append-nil,
}
use chapterhouse_qe.Common.Map
use chapterhouse_qe.External.{External}
use chapterhouse_qe.Exchange.Pool.Queues.{
  OperatorRecordQueue, push_back, reserve_record, drop_reservation, heartbeat, find_queue,
  set_queue, find_queue_id, find_queue-set_queue,
}
use chapterhouse_qe.Exchange.Pool.{
  RecordRef, RecordPool, RecordPoolError, add_record, reserve, get_next_record, mark_processed,
  finish, operator_completed_record_processing, update_reserved_record_heartbeat,
}
use chapterhouse_qe.Exchange.Pool.Calls.{Call, adds, gets, completes, beats, maintains, step}

abbrev pub to_process : Option OperatorRecordQueue → List ℕ
to_process none = []
to_process (some q) = q.records_to_process

abbrev pub received : {B C : Type 0} → Outcome RecordPoolError (Option (ℕ × B × C)) → List ℕ
received (ok (some d)) = d.0 ∷ []
received (ok none) = []
received (err e) = []
received panic = []

module _ {X : External} where
  -- The ids in the operator's queue.
  abbrev pub waiting : Text → RecordPool X → List ℕ
  waiting op p = to_process (find_queue op p.operator_record_queues)

  -- The id that a call hands to an instance of the operator.
  abbrev pub given_ids : Text → RecordPool X → Call X → List ℕ
  given_ids op p (adds r batch aliases) = []
  given_ids op p (gets o inst now) =
      if text_eq o op then received (get_next_record p o inst now).1 else []
  given_ids op p (completes o r) = []
  given_ids op p (beats o r now) = []
  given_ids op p (maintains now) = []

  abbrev pub sent_ids : Call X → List ℕ
  sent_ids (adds r batch aliases) = r ∷ []
  sent_ids (gets o inst now) = []
  sent_ids (completes o r) = []
  sent_ids (beats o r now) = []
  sent_ids (maintains now) = []

  -- Maintenance may return reservations, and is the only call that does.
  abbrev pub is_maintenance : Call X → Bool
  is_maintenance (adds r batch aliases) = false
  is_maintenance (gets o inst now) = false
  is_maintenance (completes o r) = false
  is_maintenance (beats o r now) = false
  is_maintenance (maintains now) = true

to_process-push_back :
    (op : Text) (r : ℕ) (qs : List OperatorRecordQueue) {q : OperatorRecordQueue}
    → find_queue op qs ≡ some q
    → find_queue op (map (push_back r) qs) ≡ some (push_back r q)
unfolding find_queue push_back
to_process-push_back op r [] e = cc
to_process-push_back op r (x ∷ qs) {q} e = elim (Bool-cases (text_eq x.operator_id op)) [
  | inl own ↦ rw own (ap some (ap (push_back r) (ground arith)))
  | inr other ↦ rw other (to_process-push_back op r qs (ground arith))
]

find_queue-heartbeat :
    (op o : Text) (r now : ℕ) (qs : List OperatorRecordQueue)
    → to_process
        (find_queue op (map (λ q. if text_eq q.operator_id o then heartbeat r now q else q) qs))
      ≡ to_process (find_queue op qs)
unfolding find_queue heartbeat
find_queue-heartbeat op o r now [] = refl
find_queue-heartbeat op o r now (x ∷ qs) = elim (Bool-cases (text_eq x.operator_id o)) [
  | inl e ↦ elim (Bool-cases (text_eq x.operator_id op)) [
    | inl f ↦ rw (e, f)
    | inr f ↦ rw (e, f) (find_queue-heartbeat op o r now qs)
  ]
  | inr e ↦ elim (Bool-cases (text_eq x.operator_id op)) [
    | inl f ↦ rw (e, f)
    | inr f ↦ rw (e, f) (find_queue-heartbeat op o r now qs)
  ]
]

-- A queue written back shows in its own operator's lookup alone.
to_process-set_queue :
    (op o : Text) (q q' : OperatorRecordQueue) (qs : List OperatorRecordQueue)
    → find_queue o qs ≡ some q
    → q'.operator_id ≡ q.operator_id
    → to_process (find_queue op (set_queue o q' qs))
      ≡ (if text_eq o op then q'.records_to_process else to_process (find_queue op qs))
to_process-set_queue op o q q' qs e h =
    rw (find_queue-set_queue o op q q' qs e (h ∙ find_queue_id o qs q e))
      (elim (Bool-cases (text_eq o op)) [ inl f ↦ rw f | inr f ↦ rw f ])

module _ {X : External} (op : Text) where
  -- What is handed to the operator is what its queue loses at the front.
  reserve-waiting :
      (p : RecordPool X) (o : Text) (inst now : ℕ) (q : OperatorRecordQueue) (xs : List ℕ)
      → find_queue o p.operator_record_queues ≡ some q
      → q.records_to_process ≡ xs
      → (if text_eq o op then received (reserve p o inst now q xs).1 else [])
          ++ waiting op (reserve p o inst now q xs).0
        ≡ waiting op p
  unfolding reserve
  reserve-waiting p o inst now q [] e h = elim (Bool-cases (text_eq o op)) [
    | inl f ↦ rw f
    | inr f ↦ rw f
  ]
  reserve-waiting p o inst now q (r ∷ rest) e h = elim (Option-cases (Map.get r p.records)) [
    | inl lost ↦
        rw (lost, reserve) (elim (Bool-cases (text_eq o op)) [ inl f ↦ rw f | inr f ↦ rw f ])
    | inr (rec, found) ↦
        rw (found, reserve)
          (rw
            (to_process-set_queue op o q (reserve_record r rest inst now q) p.operator_record_queues
              e (unfold reserve_record in refl))
            (elim (Bool-cases (text_eq o op)) [
              | inl f ↦ rw f (
                  unfold reserve_record in
                  sym h
                  ∙ ap to_process
                      (sym e ∙ ap (λ t. find_queue t p.operator_record_queues) (text_eq→eq o op f)))
              | inr f ↦ rw f
            ]))
  ]

  mark_processed_queues :
      (p : RecordPool X) (o : Text) (r : ℕ) (rec : RecordRef X)
      → (mark_processed p o r rec).0.operator_record_queues ≡ p.operator_record_queues
  unfolding mark_processed
  mark_processed_queues p o r rec = ground arith

  waiting-finish :
      (p : RecordPool X) (o : Text) (r : ℕ) (q : OperatorRecordQueue)
      → find_queue o p.operator_record_queues ≡ some q
      → waiting op (finish p o r q).0 ≡ waiting op p
  unfolding finish
  waiting-finish p o r q e = elim (Option-cases (Map.get r q.records_reserved_by_operator)) [
    | inl a ↦ rw (a, finish)
    | inr (res, a) ↦ elim (Option-cases (Map.get r p.records)) [
      | inl b ↦ rw (a, b, finish) same
      | inr (rec, b) ↦
          rw (a, b, finish)
            (ap (λ qs. to_process (find_queue op qs)) (mark_processed_queues p' o r rec) ∙ same)
    ]
  ]
    where
      p' : RecordPool X
      p' = record p {
        operator_record_queues = set_queue o (drop_reservation r q) p.operator_record_queues;
      }

      same : waiting op p' ≡ waiting op p
      same =
          rw
            (to_process-set_queue op o q (drop_reservation r q) p.operator_record_queues e
              (unfold drop_reservation in refl))
            (elim (Bool-cases (text_eq o op)) [
              | inl f ↦ rw f (
                  unfold drop_reservation in
                  ap to_process
                    (sym e ∙ ap (λ t. find_queue t p.operator_record_queues) (text_eq→eq o op f)))
              | inr f ↦ rw f
            ])

  -- One call: what the operator is given, and then waits for, is what waited and what was sent.
  pub step-waiting :
      (p : RecordPool X) (c : Call X) {q : OperatorRecordQueue}
      → find_queue op p.operator_record_queues ≡ some q
      → is_maintenance c ≡ false
      → given_ids op p c ++ waiting op (step p c) ≡ waiting op p ++ sent_ids c
  unfolding step add_record update_reserved_record_heartbeat get_next_record
      operator_completed_record_processing
  step-waiting p (adds r batch aliases) {q} e n =
      rw (to_process-push_back op r p.operator_record_queues e) (rw e (unfold push_back in refl))
  step-waiting p (gets o inst now) e n =
      elim (Option-cases (find_queue o p.operator_record_queues)) [
        | inl f ↦
            rw (f, get_next_record, step, append-nil)
              (elim (Bool-cases (text_eq o op)) [ inl g ↦ rw g | inr g ↦ rw g ])
        | inr (q', f) ↦
            rw (f, get_next_record, step, append-nil)
              (reserve-waiting p o inst now q' q'.records_to_process f refl)
      ]
  step-waiting p (completes o r) e n = elim (Option-cases (find_queue o p.operator_record_queues)) [
    | inl f ↦ rw (f, operator_completed_record_processing, step, append-nil)
    | inr (q', f) ↦
        rw (f, operator_completed_record_processing, step, append-nil) (waiting-finish p o r q' f)
  ]
  step-waiting p (beats o r now) e n =
      rw append-nil (find_queue-heartbeat op o r now p.operator_record_queues)
  step-waiting p (maintains now) e n = absurd (cc)
