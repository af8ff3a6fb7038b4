-- ===== src/Exchange/Pool/Tickets.antt =====
-- The invariant of a record pool, by counting: for each consuming operator and each record id, how
-- often the id waits in the operator's queue, whether it is reserved, and whether the record names
-- the operator among those that have processed it.
use chapterhouse_qe.Common.{
  ℕ, ◌+◌, ◌≤◌, ◌≡◌, Option, none, some, List, [], ◌∷◌, ◌++◌, arith, ◌==◌, if◌then◌else◌, any, All,
  Text, text_eq, Distinct,
}
use chapterhouse_qe.Common.Map
use chapterhouse_qe.External.{External}
use chapterhouse_qe.Exchange.Pool.Queues.{OperatorRecordQueue, ids}
use chapterhouse_qe.Exchange.Pool.{RecordRef, RecordPool}

abbrev pub count : ℕ → List ℕ → ℕ
count r [] = 0
count r (x ∷ xs) = if x == r then count r xs + 1 else count r xs

pub count-append : (r : ℕ) (xs ys : List ℕ) → count r (xs ++ ys) ≡ count r xs + count r ys
count-append r [] ys = omega arith
count-append r (x ∷ xs) ys = ground (arith, count-append r xs ys)

module _ {X : External} where
  -- 1 if the record is in the pool and the operator has processed it.
  abbrev pub processed : Text → Option (RecordRef X) → ℕ
  processed op none = 0
  processed op (some rec) =
      if any (λ item. text_eq item op) rec.processed_by_operators then 1 else 0

  -- How often an operator may still meet or has met the record.
  abbrev pub tickets : OperatorRecordQueue → ℕ → Option (RecordRef X) → ℕ
  tickets q r rec =
      count r q.records_to_process
      + Map.held (Map.get r q.records_reserved_by_operator)
      + processed q.operator_id rec

  -- Every stored record is for every operator in exactly one of the three places, a record that is
  -- not stored in none, and what is reserved has its metrics and is reserved once.
  pub record IsBalanced (records : List (ℕ × RecordRef X)) (q : OperatorRecordQueue) : Type 0 where
    pub balance : (r : ℕ) → tickets q r (Map.get r records) ≡ Map.held (Map.get r records)
    pub metrics :
        (r : ℕ)
        → Map.held (Map.get r q.records_reserved_by_operator)
          ≤ Map.held (Map.get r q.record_processing_metrics)
    pub single : (r : ℕ) → Map.copies r q.records_reserved_by_operator ≤ 1

  -- The queues belong to the pool's operators, which are distinct, and are balanced.
  pub record Inv (p : RecordPool X) : Type 0 where
    pub owners : ids p.operator_record_queues ≡ p.operator_ids
    pub distinct : Distinct p.operator_ids
    pub balanced : All (IsBalanced p.records) p.operator_record_queues
