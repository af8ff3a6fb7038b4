-- ===== src/Workers/Queries/Claims/Reasons.antt =====
-- Why an instance is claimed or left, said without the code that decides it.
use chapterhouse_qe.Common.{
  ℕ, ◌≡◌, ◌≤◌, ◌⊎◌, leb, Text, true, false, ◌||◌, none, some, arith, Bool-cases, Option-cases, inl,
  inr,
}
use chapterhouse_qe.External.{External}
use chapterhouse_qe.Planner.Physical.Operators.{
  Operator, OperatorCompute, PhysicalPlan, get_operator,
}
use chapterhouse_qe.Workers.Compute.{
  TotalOperatorCompute, any_depleated, subtract_single_operator_compute,
}
use chapterhouse_qe.Workers.Queries.{
  Query, QueryHandlerState, OperatorInstance, Status, terminal, is_running,
}
use chapterhouse_qe.Workers.Queries
use chapterhouse_qe.Workers.Queries.Claims.{claimable}

-- The instances that a claim may hand out, and those that it may not whatever there is.
pub data IsOpen : Status → Type 0 where
  waits : IsOpen Queries.queued
  offered : IsOpen Queries.sending_to_worker
  shut_down : {time : ℕ} → IsOpen (Queries.sent_shutdown time)

pub data IsClosed : Status → Type 0 where
  runs : IsClosed Queries.running
  completed : IsClosed Queries.complete
  failed : {text : Text} → IsClosed (Queries.error text)

-- An operator must leave something of each.
abbrev pub DoesNotFit : TotalOperatorCompute → OperatorCompute → Type 0
DoesNotFit left c =
    (left.instances ≤ 1)
    ⊎ ((left.memory_in_mib ≤ c.memory_in_mib) ⊎ (left.cpu_in_thousandths ≤ c.cpu_in_thousandths))

pub open_lem : (status : Status) → (is_running status || terminal status) ≡ false → IsOpen status
unfolding terminal
open_lem Queries.queued h = waits
open_lem Queries.sending_to_worker h = offered
open_lem Queries.running h = absurd (cc)
open_lem (Queries.sent_shutdown time) h = shut_down
open_lem Queries.complete h = absurd (cc)
open_lem (Queries.error text) h = absurd (cc)

closed_lem : (status : Status) → (is_running status || terminal status) ≡ true → IsClosed status
unfolding terminal
closed_lem Queries.queued h = absurd (cc)
closed_lem Queries.sending_to_worker h = absurd (cc)
closed_lem Queries.running h = runs
closed_lem (Queries.sent_shutdown time) h = absurd (cc)
closed_lem Queries.complete h = completed
closed_lem (Queries.error text) h = failed

depleated-DoesNotFit :
    (left : TotalOperatorCompute) (c : OperatorCompute)
    → any_depleated (subtract_single_operator_compute left c) ≡ true
    → DoesNotFit left c
unfolding any_depleated subtract_single_operator_compute
depleated-DoesNotFit left c h = elim (Bool-cases (leb left.instances 1)) [
  | inl e ↦ inl (ground (arith, e))
  | inr e ↦ elim (Bool-cases (leb left.memory_in_mib c.memory_in_mib)) [
    | inl f ↦ inr (inl (ground (arith, f)))
    | inr f ↦ inr (inr (ground (arith, e, f, h)))
  ]
]

module _ {X : External} where
  -- Why an instance is left: the plan has no operator for it, it runs or has ended, or its operator asks
  -- for too much.
  pub data CannotTake (plan : PhysicalPlan X) (left : TotalOperatorCompute)
      (op_in : OperatorInstance) : Type 0 where
    unplanned :
        get_operator plan op_in.pipeline_id op_in.operator_id ≡ none → CannotTake plan left op_in
    busy : IsClosed op_in.status → CannotTake plan left op_in
    too_large :
        {operator : Operator X}
        → get_operator plan op_in.pipeline_id op_in.operator_id ≡ some operator
        → DoesNotFit left operator.compute
        → CannotTake plan left op_in

  pub claimable-CannotTake :
      (plan : PhysicalPlan X) (left : TotalOperatorCompute) (op_in : OperatorInstance)
      → claimable plan left op_in ≡ none
      → CannotTake plan left op_in
  unfolding claimable
  claimable-CannotTake plan left op_in =
      elim (Option-cases (get_operator plan op_in.pipeline_id op_in.operator_id)) [
        | inl e ↦ λ h. unplanned e
        | inr (o, e) ↦ elim (Bool-cases (is_running op_in.status || terminal op_in.status)) [
          | inl f ↦ λ h. busy (closed_lem op_in.status f)
          | inr f ↦
              elim (Bool-cases (any_depleated (subtract_single_operator_compute left o.compute))) [
                | inl g ↦ λ h. too_large e (depleated-DoesNotFit left o.compute g)
                | inr g ↦ rw (e, f, g, claimable) (λ h. absurd (cc))
              ]
        ]
      ]
