-- ===== src/Exchange/Pool.antt =====
-- src/handlers/operator_handler/operators/exchange_operator.rs, `RecordPool`: the records of one
-- exchange, with a queue of record ids and a table of reservations for each consuming operator.
-- Times are numbers of any unit; `chrono::Utc::now()` is an argument.
pub mod Queues
pub mod Tickets
pub mod Invariant
pub mod Completion
pub mod Requeue
pub mod Calls
pub mod Waiting
pub mod Contents
pub mod Handing
pub mod Broadcast
use chapterhouse_qe.Common.{
  ℕ, suc, ◌+◌, ◌%◌, ◌^◌, ◌≡◌, refl, Bool, true, false, Option, none, some, List, [], ◌∷◌, ◌++◌, map,
  ltb, ◌==◌, if◌then◌else◌, length, any, select, ◌&&◌, Text, text_eq, texts_eq, sort, Outcome, ok,
  err, panic,
}
use chapterhouse_qe.Common.Map
use chapterhouse_qe.External.{External}
use Queues.{
  ReservedRecord, RecordProcessingMetrics, OperatorRecordQueue, empty_queue, push_back,
  reserve_record, drop_reservation, heartbeat, requeue_queues, find_queue, set_queue,
}

pub data RecordPoolError : Type 0 where
  operator_does_not_exist : Text → RecordPoolError
  record_does_not_exist : ℕ → RecordPoolError
  record_processing_metrics_does_not_exist : ℕ → Text → RecordPoolError
  reserved_record_instance_missing_for_operator : Text → RecordPoolError
  record_already_processed_by_operator : ℕ → Text → RecordPoolError

module _ (X : External) where
  pub record RecordRef : Type 0 where
    pub id : ℕ
    pub batch : X.RecordBatch
    pub table_aliases : List (List Text)
    pub processed_by_operators : List Text

  pub record RecordPool : Type 0 where
    pub records : List (ℕ × RecordRef)
    pub operator_record_queues : List OperatorRecordQueue
    pub operator_ids : List Text
    pub max_heartbeat_interval : ℕ

  -- What a consumer is handed: the id, the batch and the table aliases.
  abbrev pub Delivery : Type 0
  Delivery = ℕ × X.RecordBatch × List (List Text)

-- `RecordProcessingMetricsDoesNotExist`, with the record and the operator that the queues report.
abbrev pub metrics_error : Option (ℕ × Text) → Outcome RecordPoolError (Unit {0})
metrics_error none = ok tt
metrics_error (some (record_id, operator_id)) =
    err (record_processing_metrics_does_not_exist record_id operator_id)

module _ {X : External} where
  unfoldable pub new : List Text → ℕ → RecordPool X
  unfolding sort
  new operator_ids max_heartbeat_interval = record {
    records = [];
    operator_record_queues = map empty_queue (sort operator_ids);
    operator_ids = sort operator_ids;
    max_heartbeat_interval = max_heartbeat_interval;
  }

  unfoldable pub add_record : RecordPool X → ℕ → X.RecordBatch → List (List Text) → RecordPool X
  add_record p record_id batch table_aliases = record p {
    records =
        Map.insert record_id
          (record {
            id = record_id;
            batch = batch;
            table_aliases = table_aliases;
            processed_by_operators = [];
          })
          p.records;
    operator_record_queues = map (push_back record_id) p.operator_record_queues;
  }

  -- `get_next_record` behind the lookup of the queue: `pop_front`, then the record must be there.
  unfoldable pub reserve :
      RecordPool X
      → Text
      → ℕ
      → ℕ
      → OperatorRecordQueue
      → List ℕ
      → RecordPool X × Outcome RecordPoolError (Option (Delivery X))
  reserve p operator_id operator_instance_id now q [] = (p, ok none)
  reserve p operator_id operator_instance_id now q (record_id ∷ rest) =
      elim (Map.get record_id p.records) [
        | none ↦ (p, panic)
        | some rec ↦ (
          record p {
            operator_record_queues =
                set_queue operator_id (reserve_record record_id rest operator_instance_id now q)
                  p.operator_record_queues;
          },
          ok (some (record_id, rec.batch, rec.table_aliases)),
        )
      ]

  -- The panic is that of a queued record which the pool has lost.
  unfoldable pub get_next_record :
      RecordPool X → Text → ℕ → ℕ → RecordPool X × Outcome RecordPoolError (Option (Delivery X))
  unfolding reserve
  get_next_record p operator_id operator_instance_id now =
      elim (find_queue operator_id p.operator_record_queues) [
        | none ↦ (p, err (operator_does_not_exist operator_id))
        | some q ↦ reserve p operator_id operator_instance_id now q q.records_to_process
      ]

  -- `processed_by_operators.push`.
  unfoldable pub add_operator : RecordRef X → Text → RecordRef X
  add_operator rec_ref operator_id = record rec_ref {
    processed_by_operators = rec_ref.processed_by_operators ++ (operator_id ∷ []);
  }

  -- The end of `operator_completed_record_processing`: the record gains one operator, and is dropped
  -- when it then has all of them.
  unfoldable pub mark_processed :
      RecordPool X → Text → ℕ → RecordRef X → RecordPool X × Outcome RecordPoolError (Unit {0})
  unfolding add_operator
  mark_processed p operator_id record_id rec_ref =
      let pbo = (add_operator rec_ref operator_id).processed_by_operators in
      let records = Map.insert record_id (add_operator rec_ref operator_id) p.records in
      if any (λ item. text_eq item operator_id) rec_ref.processed_by_operators
      then (p, err (record_already_processed_by_operator record_id operator_id))
      else if length pbo == length p.operator_ids && texts_eq (sort pbo) p.operator_ids
      then (record p { records = Map.remove record_id records }, ok tt)
      else (record p { records = records }, ok tt)

  -- The reservation is taken out before the record is looked at.
  unfoldable pub finish :
      RecordPool X
      → Text
      → ℕ
      → OperatorRecordQueue
      → RecordPool X × Outcome RecordPoolError (Unit {0})
  unfolding mark_processed
  finish p operator_id record_id q =
      let q' = drop_reservation record_id q in
      let p' = record p {
        operator_record_queues = set_queue operator_id q' p.operator_record_queues;
      } in
      elim (Map.get record_id q.records_reserved_by_operator) [
        | none ↦ (p, err (reserved_record_instance_missing_for_operator operator_id))
        | some res ↦ elim (Map.get record_id p.records) [
          | none ↦ (p', err (record_does_not_exist record_id))
          | some rec_ref ↦ mark_processed p' operator_id record_id rec_ref
        ]
      ]

  unfoldable pub operator_completed_record_processing :
      RecordPool X → Text → ℕ → RecordPool X × Outcome RecordPoolError (Unit {0})
  unfolding finish
  operator_completed_record_processing p operator_id record_id =
      elim (find_queue operator_id p.operator_record_queues) [
        | none ↦ (p, err (operator_does_not_exist operator_id))
        | some q ↦ finish p operator_id record_id q
      ]

  -- The first entry of the operator's reservations with this id gets a heartbeat. A reservation is
  -- filed under its own `record_id`.
  unfoldable pub update_reserved_record_heartbeat : RecordPool X → Text → ℕ → ℕ → RecordPool X
  update_reserved_record_heartbeat p operator_id record_id now = record p {
    operator_record_queues =
        map (λ q. if text_eq q.operator_id operator_id then heartbeat record_id now q else q)
          p.operator_record_queues;
  }

  unfoldable pub requeue_reserved_records_with_stale_heartbeat :
      RecordPool X → ℕ → RecordPool X × Outcome RecordPoolError (Unit {0})
  requeue_reserved_records_with_stale_heartbeat p now =
      let (qs, res) = requeue_queues now p.max_heartbeat_interval p.operator_record_queues in
      (record p { operator_record_queues = qs }, metrics_error res)

  unfoldable pub maintain : RecordPool X → ℕ → RecordPool X × Outcome RecordPoolError (Unit {0})
  maintain p now = requeue_reserved_records_with_stale_heartbeat p now
