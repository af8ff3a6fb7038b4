-- ===== src/Exchange/Pool/Queues/Defs.antt =====
-- src/handlers/operator_handler/operators/exchange_operator.rs, `OperatorRecordQueue`: the queue of
-- one consuming operator, and the list of queues that a pool holds.
use chapterhouse_qe.Common.Map
use chapterhouse_qe.Common.{
  ℕ, Bool, false, Option, none, some, List, [], ◌∷◌, ◌++◌, if◌then◌else◌, ◌==◌, ltb, ◌+◌, ◌%◌, ◌^◌,
  Text, text_eq,
}

pub record ReservedRecord : Type 0 where
  pub record_id : ℕ
  pub operator_instance_id : ℕ
  pub reserved_time : ℕ
  pub last_heartbeat_time : Option ℕ

-- `failure_count` is a `u32`.
pub record RecordProcessingMetrics : Type 0 where
  pub failure_count : ℕ

pub record OperatorRecordQueue : Type 0 where
  pub operator_id : Text
  pub records_to_process : List ℕ
  pub records_reserved_by_operator : List (ℕ × ReservedRecord)
  pub record_processing_metrics : List (ℕ × RecordProcessingMetrics)

unfoldable pub empty_queue : Text → OperatorRecordQueue
empty_queue operator_id = record {
  operator_id = operator_id;
  records_to_process = [];
  records_reserved_by_operator = [];
  record_processing_metrics = [];
}

-- `records_to_process.push_back`.
unfoldable pub push_back : ℕ → OperatorRecordQueue → OperatorRecordQueue
push_back record_id q = record q { records_to_process = q.records_to_process ++ (record_id ∷ []) }

-- `iter_mut().find(|item| item.operator_id == *operator_id)`.
unfoldable pub find_queue : Text → List OperatorRecordQueue → Option OperatorRecordQueue
find_queue id [] = none
find_queue id (q ∷ qs) = if text_eq q.operator_id id then some q else find_queue id qs

-- A write through the reference that `find_queue` returns.
unfoldable pub set_queue :
    Text → OperatorRecordQueue → List OperatorRecordQueue → List OperatorRecordQueue
set_queue id q' [] = []
set_queue id q' (q ∷ qs) = if text_eq q.operator_id id then q' ∷ qs else q ∷ set_queue id q' qs

-- The reservation of the id that `pop_front` took, with fresh metrics.
unfoldable pub reserve_record : ℕ → List ℕ → ℕ → ℕ → OperatorRecordQueue → OperatorRecordQueue
reserve_record record_id rest operator_instance_id now q = record q {
  records_to_process = rest;
  records_reserved_by_operator =
      Map.insert record_id
        (record {
          record_id = record_id;
          operator_instance_id = operator_instance_id;
          reserved_time = now;
          last_heartbeat_time = none;
        })
        q.records_reserved_by_operator;
  record_processing_metrics =
      Map.insert record_id (record { failure_count = 0 }) q.record_processing_metrics;
}

-- A completed record loses its reservation and its metrics.
unfoldable pub drop_reservation : ℕ → OperatorRecordQueue → OperatorRecordQueue
drop_reservation record_id q = record q {
  records_reserved_by_operator = Map.remove record_id q.records_reserved_by_operator;
  record_processing_metrics = Map.remove record_id q.record_processing_metrics;
}

unfoldable pub beat : ℕ → ℕ → List (ℕ × ReservedRecord) → List (ℕ × ReservedRecord)
beat record_id now [] = []
beat record_id now ((k, res) ∷ m) =
    if res.record_id == record_id
    then (k, record res { last_heartbeat_time = some now }) ∷ m
    else (k, res) ∷ beat record_id now m

-- `filter(..).take(1).for_each(..)` over the reservations.
unfoldable pub heartbeat : ℕ → ℕ → OperatorRecordQueue → OperatorRecordQueue
unfolding beat
heartbeat record_id now q = record q {
  records_reserved_by_operator = beat record_id now q.records_reserved_by_operator;
}

-- `now.signed_duration_since(last) > max_heartbeat_interval`, with no subtraction.
abbrev pub beat_overdue : ℕ → ℕ → Option ℕ → Bool
beat_overdue now limit none = false
beat_overdue now limit (some last) = ltb (last + limit) now

-- The ids to requeue, in the order of the map's iteration.
unfoldable pub stale_ids : ℕ → ℕ → List (ℕ × ReservedRecord) → List ℕ
stale_ids now limit [] = []
stale_ids now limit ((k, res) ∷ m) =
    if beat_overdue now limit res.last_heartbeat_time
    then k ∷ stale_ids now limit m
    else stale_ids now limit m

-- One id goes back to the front of the queue, without its reservation. `failure_count` is a `u32`.
unfoldable pub requeue_record : ℕ → OperatorRecordQueue → OperatorRecordQueue × Option (ℕ × Text)
requeue_record record_id q =
    let q' = record q {
      records_to_process = record_id ∷ q.records_to_process;
      records_reserved_by_operator = Map.remove record_id q.records_reserved_by_operator;
    } in
    elim (Map.get record_id q.record_processing_metrics) [
      | none ↦ (q', some (record_id, q.operator_id))
      | some m ↦ (
        record q' {
          record_processing_metrics =
              Map.insert record_id (record { failure_count = (m.failure_count + 1) % 2 ^ 32 })
                q.record_processing_metrics;
        },
        none,
      )
    ]

-- `try_for_each`: the first failure ends the loop, and keeps what was done.
unfoldable pub requeue_records :
    List ℕ → OperatorRecordQueue → OperatorRecordQueue × Option (ℕ × Text)
unfolding requeue_record
requeue_records [] q = (q, none)
requeue_records (r ∷ rs) q = elim (requeue_record r q).1 [
  | none ↦ requeue_records rs (requeue_record r q).0
  | some e ↦ ((requeue_record r q).0, some e)
]

-- The stale reservations of one queue.
unfoldable pub requeue_queue : ℕ → ℕ → OperatorRecordQueue → OperatorRecordQueue × Option (ℕ × Text)
unfolding requeue_records stale_ids
requeue_queue now limit q = requeue_records (stale_ids now limit q.records_reserved_by_operator) q

-- A queue that is done, before the result for those behind it.
abbrev pub before :
    OperatorRecordQueue
    → List OperatorRecordQueue × Option (ℕ × Text)
    → List OperatorRecordQueue × Option (ℕ × Text)
before q rest = (q ∷ rest.0, rest.1)

unfoldable pub requeue_queues :
    ℕ → ℕ → List OperatorRecordQueue → List OperatorRecordQueue × Option (ℕ × Text)
unfolding requeue_queue
requeue_queues now limit [] = ([], none)
requeue_queues now limit (q ∷ qs) = elim (requeue_queue now limit q).1 [
  | none ↦ before (requeue_queue now limit q).0 (requeue_queues now limit qs)
  | some e ↦ ((requeue_queue now limit q).0 ∷ qs, some e)
]
