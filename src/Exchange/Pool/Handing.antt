-- ===== src/Exchange/Pool/Handing.antt =====
-- One call, and the records that one consuming operator is given and waits for.
use chapterhouse_qe.Common.{
  ℕ, ◌≤◌, ◌≡◌, refl, sym, ap, ◌∙◌, false, some, List, [], ◌∷◌, ◌++◌, inl, inr, ==_refl, subst, Text,
  text_eq, Bool-cases, Option-cases, append-nil,
}
use chapterhouse_qe.Common.Map
use chapterhouse_qe.External.{External}
use chapterhouse_qe.Exchange.Pool.Queues.{OperatorRecordQueue, find_queue}
use chapterhouse_qe.Exchange.Pool.{
  RecordPool, add_record, reserve, get_next_record, operator_completed_record_processing,
  update_reserved_record_heartbeat,
}
use chapterhouse_qe.Exchange.Pool.Calls.{
  Call, adds, gets, completes, beats, maintains, step, IsFresh, step-Inv,
}
use chapterhouse_qe.Exchange.Pool.Tickets.{count, Inv}
use chapterhouse_qe.Exchange.Pool.Waiting.{
  received, waiting, given_ids, sent_ids, is_maintenance, step-waiting,
}
use chapterhouse_qe.Exchange.Pool.Contents.{
  received_records, contents, waiting_records, given, sent, contents-append, contents_agree,
  find-balanced, added-content, Keeps, completed-Keeps,
}

module _ {X : External} where
  reserve_records :
      (p : RecordPool X) (o : Text) (inst now : ℕ) (q : OperatorRecordQueue) (xs : List ℕ)
      → (reserve p o inst now q xs).0.records ≡ p.records
  unfolding reserve
  reserve_records p o inst now q [] = refl
  reserve_records p o inst now q (r ∷ rest) = elim (Option-cases (Map.get r p.records)) [
    | inl e ↦ rw (e, reserve) refl
    | inr (rec, e) ↦ rw (e, reserve) refl
  ]

  reserve-contents :
      (p : RecordPool X) (o : Text) (inst now : ℕ) (q : OperatorRecordQueue) (xs : List ℕ)
      → contents p.records (received (reserve p o inst now q xs).1)
        ≡ received_records (reserve p o inst now q xs).1
  unfolding reserve
  reserve-contents p o inst now q [] = refl
  reserve-contents p o inst now q (r ∷ rest) = elim (Option-cases (Map.get r p.records)) [
    | inl e ↦ rw (e, reserve) refl
    | inr (rec, e) ↦ rw (e, reserve) (rw e refl)
  ]

  get_next_record_records :
      (p : RecordPool X) (o : Text) (inst now : ℕ)
      → (get_next_record p o inst now).0.records ≡ p.records
  unfolding get_next_record
  get_next_record_records p o inst now =
      elim (Option-cases (find_queue o p.operator_record_queues)) [
        | inl e ↦ rw (e, get_next_record) refl
        | inr (q, e) ↦ rw (e, get_next_record) (reserve_records p o inst now q q.records_to_process)
      ]

  get_next_record-contents :
      (p : RecordPool X) (o : Text) (inst now : ℕ)
      → contents p.records (received (get_next_record p o inst now).1)
        ≡ received_records (get_next_record p o inst now).1
  unfolding get_next_record
  get_next_record-contents p o inst now =
      elim (Option-cases (find_queue o p.operator_record_queues)) [
        | inl e ↦ rw (e, get_next_record) refl
        | inr (q, e) ↦
            rw (e, get_next_record) (reserve-contents p o inst now q q.records_to_process)
      ]

  given_ids-contents :
      (op : Text) (p : RecordPool X) (c : Call X)
      → is_maintenance c ≡ false
      → contents (step p c).records (given_ids op p c) ≡ given op p c
  unfolding step
  given_ids-contents op p (adds r batch aliases) n = refl
  given_ids-contents op p (gets o inst now) n = elim (Bool-cases (text_eq o op)) [
    | inl e ↦ rw e (
        ap (λ m. contents m (received (get_next_record p o inst now).1))
          (get_next_record_records p o inst now)
        ∙ get_next_record-contents p o inst now)
    | inr e ↦ rw e refl
  ]
  given_ids-contents op p (completes o r) n = refl
  given_ids-contents op p (beats o r now) n = refl
  given_ids-contents op p (maintains now) n = absurd (cc)

  sent_ids-contents :
      (p : RecordPool X) (c : Call X) → contents (step p c).records (sent_ids c) ≡ sent c
  unfolding step add_record
  sent_ids-contents p (adds r batch aliases) = rw (Map.get-insert, ==_refl r) refl
  sent_ids-contents p (gets o inst now) = refl
  sent_ids-contents p (completes o r) = refl
  sent_ids-contents p (beats o r now) = refl
  sent_ids-contents p (maintains now) = refl

  waiting-contents :
      (op : Text) (p : RecordPool X) (c : Call X) {q : OperatorRecordQueue}
      → find_queue op p.operator_record_queues ≡ some q
      → is_maintenance c ≡ false
      → IsFresh p c
      → Inv p
      → contents (step p c).records (waiting op p) ≡ contents p.records (waiting op p)
  unfolding step add_record update_reserved_record_heartbeat
  waiting-contents op p (adds r batch aliases) e n f v =
      contents_agree p.records p.records _ (waiting op p)
        (find-balanced p.records op p.operator_record_queues v.balanced)
        (λ x. added-content p.records r _ x f)
  waiting-contents op p (gets o inst now) e n f v =
      ap (λ m. contents m (waiting op p)) (get_next_record_records p o inst now)
  waiting-contents op p (completes o r) e n f v =
      let after = (operator_completed_record_processing p o r).0 in
      let same : waiting op after ≡ waiting op p =
        step-waiting op p (completes o r) e n ∙ append-nil (waiting op p) in
      contents_agree after.records p.records after.records (waiting op p)
        (subst (λ xs. (x : ℕ) → count x xs ≤ Map.held (Map.get x after.records)) same
          (find-balanced after.records op after.operator_record_queues
            (step-Inv p (completes o r) f v).balanced))
        (unfold Keeps in completed-Keeps p o r)
  waiting-contents op p (beats o r now) e n f v = refl
  waiting-contents op p (maintains now) e n f v = absurd (cc)

  -- One call: the records that the operator is given, and then waits for, are those that waited and the
  -- one that was sent.
  pub step-records :
      (op : Text) (p : RecordPool X) (c : Call X) {q : OperatorRecordQueue}
      → find_queue op p.operator_record_queues ≡ some q
      → is_maintenance c ≡ false
      → IsFresh p c
      → Inv p
      → given op p c ++ waiting_records op (step p c) ≡ waiting_records op p ++ sent c
  step-records op p c e n f v =
      let m = (step p c).records in
      ap (λ xs. xs ++ waiting_records op (step p c)) (sym (given_ids-contents op p c n))
      ∙ sym (contents-append m (given_ids op p c) (waiting op (step p c)))
      ∙ ap (contents m) (step-waiting op p c e n)
      ∙ contents-append m (waiting op p) (sent_ids c)
      ∙ ap (λ xs. xs ++ contents m (sent_ids c)) (waiting-contents op p c e n f v)
      ∙ ap (λ ys. waiting_records op p ++ ys) (sent_ids-contents p c)
