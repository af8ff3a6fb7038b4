-- ===== src/Exchange/Pool/Requeue.antt =====
-- Heartbeats and the return of stale reservations keep the invariant.
use chapterhouse_qe.Common.{
  ℕ, ◌≤◌, ◌≡◌, refl, ap, ap₂, ◌∙◌, Option, none, List, [], ◌∷◌, map, arith, inl, inr, ◌==◌,
  if◌then◌else◌, All, Text, text_eq, Bool-cases, Option-cases, ok,
}
use chapterhouse_qe.Common.Map
use chapterhouse_qe.External.{External}
use chapterhouse_qe.Exchange.Pool.Queues.{
  OperatorRecordQueue, ReservedRecord, ids, requeue_record, requeue_records, requeue_queue,
  requeue_queues, stale_ids, beat, heartbeat,
}
use chapterhouse_qe.Exchange.Pool.{
  RecordRef, RecordPool, maintain, update_reserved_record_heartbeat,
  requeue_reserved_records_with_stale_heartbeat, metrics_error,
}
use chapterhouse_qe.Exchange.Pool.Tickets.{count, IsBalanced, Inv}

-- An id is stale once at most for each of its entries.
count-stale_ids :
    (now limit r : ℕ) (m : List (ℕ × ReservedRecord))
    → count r (stale_ids now limit m) ≤ Map.copies r m
unfolding stale_ids
count-stale_ids now limit r [] = omega arith
count-stale_ids now limit r ((k, res) ∷ m) = ground (arith, count-stale_ids now limit r m)

-- The ids to requeue are reserved, and each is named once.
abbrev AllReserved : List ℕ → OperatorRecordQueue → Type 0
AllReserved rs q = (r : ℕ) → count r rs ≤ Map.held (Map.get r q.records_reserved_by_operator)

stale_ids-AllReserved :
    (now limit : ℕ) (q : OperatorRecordQueue)
    → ((r : ℕ) → Map.copies r q.records_reserved_by_operator ≤ 1)
    → AllReserved (stale_ids now limit q.records_reserved_by_operator) q
stale_ids-AllReserved now limit q single r =
    elim (Option-cases (Map.get r q.records_reserved_by_operator)) [
      | inl e ↦ rw e (
          omega (
            arith,
            count-stale_ids now limit r q.records_reserved_by_operator,
            Map.copies_absent r _ e,
          ))
      | inr (v, e) ↦
          rw e (omega (arith, count-stale_ids now limit r q.records_reserved_by_operator, single r))
    ]

module _ {X : External} (records : List (ℕ × RecordRef X)) where
  abbrev Requeued : OperatorRecordQueue → OperatorRecordQueue × Option (ℕ × Text) → Type 0
  Requeued q res = IsBalanced records res.0 × (res.1 ≡ none) × (res.0.operator_id ≡ q.operator_id)

  requeue_record-IsBalanced :
      (r : ℕ) (q : OperatorRecordQueue)
      → Map.held (Map.get r q.records_reserved_by_operator) ≡ 1
      → IsBalanced records q
      → Requeued q (requeue_record r q)
        × ((s : ℕ)
            → Map.held (Map.get s (requeue_record r q).0.records_reserved_by_operator)
              ≡ (if r == s then 0 else Map.held (Map.get s q.records_reserved_by_operator)))
  unfolding requeue_record
  requeue_record-IsBalanced r q res h =
      elim (Option-cases (Map.get r q.record_processing_metrics)) [
        | inl e ↦ absurd (ground (arith, h.metrics r))
        | inr (m, e) ↦
            rw (e, requeue_record)
              (
                (
                  record {
                    balance = λ s. rw Map.held-remove (ground (arith, h.balance s));
                    metrics =
                        λ s. rw (Map.held-remove, Map.held-insert) (ground (arith, h.metrics s));
                    single = λ s. rw Map.copies-remove (ground (arith, h.single s));
                  },
                  refl,
                  refl,
                ),
                λ s. Map.held-remove r s q.records_reserved_by_operator,
              )
      ]

  requeue_records-IsBalanced :
      (rs : List ℕ) (q : OperatorRecordQueue)
      → AllReserved rs q
      → IsBalanced records q
      → Requeued q (requeue_records rs q)
  unfolding requeue_records
  requeue_records-IsBalanced [] q res h = (h, refl, refl)
  requeue_records-IsBalanced (r ∷ rs) q res h =
      let (one, left) = requeue_record-IsBalanced r q (ground (arith, res r)) h in
      let (b, e, o) =
        requeue_records-IsBalanced rs (requeue_record r q).0
          (λ s. ground (arith, res s, res r, left s)) one.0 in
      rw (one.1, requeue_records) (b, e, o ∙ one.2)

  requeue_queues-All :
      (now limit : ℕ) (qs : List OperatorRecordQueue)
      → All (IsBalanced records) qs
      → All (IsBalanced records) (requeue_queues now limit qs).0
        × ((requeue_queues now limit qs).1 ≡ none)
        × (ids (requeue_queues now limit qs).0 ≡ ids qs)
  unfolding requeue_queues requeue_queue
  requeue_queues-All now limit [] h = (tt, refl, refl)
  requeue_queues-All now limit (q ∷ qs) h =
      let (b, e, o) =
        requeue_records-IsBalanced _ q (stale_ids-AllReserved now limit q h.0.single) h.0 in
      let (bs, es, os) = requeue_queues-All now limit qs h.1 in
      rw (e, requeue_queues) ((b, bs), es, ap₂ ◌∷◌ o os)

module _ {X : External} where
  -- Maintenance keeps the invariant and never fails.
  pub maintain-Inv :
      (p : RecordPool X) (now : ℕ) → Inv p → Inv (maintain p now).0 × ((maintain p now).1 ≡ ok tt)
  unfolding maintain requeue_reserved_records_with_stale_heartbeat
  maintain-Inv p now v =
      let (b, e, o) =
        requeue_queues-All p.records now p.max_heartbeat_interval p.operator_record_queues
          v.balanced in
      (record { owners = o ∙ v.owners; distinct = v.distinct; balanced = b }, ap metrics_error e)

beat-held :
    (id now r : ℕ) (m : List (ℕ × ReservedRecord))
    → (Map.held (Map.get r (beat id now m)) ≡ Map.held (Map.get r m))
      × (Map.copies r (beat id now m) ≡ Map.copies r m)
unfolding beat Map.get
beat-held id now r [] = (refl, refl)
beat-held id now r ((k, res) ∷ m) = ground (arith, beat-held id now r m)

heartbeat-IsBalanced :
    {X : External} (records : List (ℕ × RecordRef X)) (id now : ℕ) (q : OperatorRecordQueue)
    → IsBalanced records q
    → IsBalanced records (heartbeat id now q)
unfolding heartbeat
heartbeat-IsBalanced records id now q h = record {
  balance = λ s. ground (arith, h.balance s, beat-held id now s q.records_reserved_by_operator);
  metrics = λ s. ground (arith, h.metrics s, beat-held id now s q.records_reserved_by_operator);
  single = λ s. ground (arith, h.single s, beat-held id now s q.records_reserved_by_operator);
}

module _ {X : External} (records : List (ℕ × RecordRef X)) (op : Text) (id now : ℕ) where
  abbrev beat_own : OperatorRecordQueue → OperatorRecordQueue
  beat_own q = if text_eq q.operator_id op then heartbeat id now q else q

  beat_own-All :
      (qs : List OperatorRecordQueue)
      → All (IsBalanced records) qs
      → All (IsBalanced records) (map beat_own qs) × (ids (map beat_own qs) ≡ ids qs)
  unfolding heartbeat
  beat_own-All [] h = (tt, refl)
  beat_own-All (q ∷ qs) h =
      let (rest, e) = beat_own-All qs h.1 in
      elim (Bool-cases (text_eq q.operator_id op)) [
        | inl own ↦
            rw own ((heartbeat-IsBalanced records id now q h.0, rest), ap (◌∷◌ q.operator_id) e)
        | inr other ↦ rw other ((h.0, rest), ap (◌∷◌ q.operator_id) e)
      ]

module _ {X : External} where
  pub heartbeat-Inv :
      (p : RecordPool X) (op : Text) (id now : ℕ)
      → Inv p
      → Inv (update_reserved_record_heartbeat p op id now)
  unfolding update_reserved_record_heartbeat
  heartbeat-Inv p op id now v =
      let (b, e) = beat_own-All p.records op id now p.operator_record_queues v.balanced in
      record { owners = e ∙ v.owners; distinct = v.distinct; balanced = b }
