-- ===== src/Exchange/Pool/Calls.antt =====
-- The operations of a record pool as one step function, and the pools that an exchange can come to.
use chapterhouse_qe.Common.{ℕ, ◌≡◌, ◌≢◌, none, List, Text, Distinct, ok, panic}
use chapterhouse_qe.Common.Map
use chapterhouse_qe.External.{External}
use chapterhouse_qe.Exchange.Pool.{
  RecordPool, new, add_record, get_next_record, operator_completed_record_processing,
  update_reserved_record_heartbeat, maintain,
}
use chapterhouse_qe.Exchange.Pool.Tickets.{Inv}
use chapterhouse_qe.Exchange.Pool.Invariant.{new-Inv, add_record-Inv, get_next_record-Inv}
use chapterhouse_qe.Exchange.Pool.Completion.{Answers, completed-Inv}
use chapterhouse_qe.Exchange.Pool.Requeue.{maintain-Inv, heartbeat-Inv}

-- The times of a call are what `chrono::Utc::now()` gives in it.
pub data Call (X : External) : Type 0 where
  adds : ℕ → X.RecordBatch → List (List Text) → Call X
  gets : Text → ℕ → ℕ → Call X
  completes : Text → ℕ → Call X
  beats : Text → ℕ → ℕ → Call X
  maintains : ℕ → Call X

module _ {X : External} where
  unfoldable pub step : RecordPool X → Call X → RecordPool X
  step p (adds r batch aliases) = add_record p r batch aliases
  step p (gets op inst now) = (get_next_record p op inst now).0
  step p (completes op r) = (operator_completed_record_processing p op r).0
  step p (beats op r now) = update_reserved_record_heartbeat p op r now
  step p (maintains now) = (maintain p now).0

  -- A producer numbers its records: an id that is still in the pool is not sent again.
  abbrev pub IsFresh : RecordPool X → Call X → Type 0
  IsFresh p (adds r batch aliases) = Map.get r p.records ≡ none
  IsFresh p (gets op inst now) = Unit {0}
  IsFresh p (completes op r) = Unit {0}
  IsFresh p (beats op r now) = Unit {0}
  IsFresh p (maintains now) = Unit {0}

  pub step-Inv : (p : RecordPool X) (c : Call X) → IsFresh p c → Inv p → Inv (step p c)
  unfolding step
  step-Inv p (adds r batch aliases) f v = add_record-Inv p r batch aliases f v
  step-Inv p (gets op inst now) f v = (get_next_record-Inv p op inst now v).0
  step-Inv p (completes op r) f v = (completed-Inv p op r v).0
  step-Inv p (beats op r now) f v = heartbeat-Inv p op r now v
  step-Inv p (maintains now) f v = (maintain-Inv p now v).0

-- The pools of an exchange whose consumers are `ts`.
pub data Reach {X : External} (ts : List Text) (limit : ℕ) : RecordPool X → Type 0 where
  start : Reach ts limit (new ts limit)
  next :
      {p : RecordPool X} (c : Call X) → Reach ts limit p → IsFresh p c → Reach ts limit (step p c)

module _ {X : External} (ts : List Text) (limit : ℕ) (distinct : Distinct ts) where
  pub Reach-Inv : {p : RecordPool X} → Reach ts limit p → Inv p
  Reach-Inv start = new-Inv ts limit distinct
  Reach-Inv (next {p} c reached f) = step-Inv p c f (Reach-Inv reached)

  -- In every pool that an exchange comes to by fresh additions and any other calls: a request never
  -- panics, a completion answers nothing but success, an unknown operator or a missing reservation,
  -- and maintenance does not fail.
  pub Reach-safe :
      {p : RecordPool X} (op : Text) (inst r now : ℕ)
      → Reach ts limit p
      → ((get_next_record p op inst now).1 ≢ panic)
        × Answers op (operator_completed_record_processing p op r).1
        × ((maintain p now).1 ≡ ok tt)
  Reach-safe {p} op inst r now reached = (
    (get_next_record-Inv p op inst now (Reach-Inv reached)).1,
    (completed-Inv p op r (Reach-Inv reached)).1,
    (maintain-Inv p now (Reach-Inv reached)).1,
  )
