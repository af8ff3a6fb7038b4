-- ===== src/Workers/Instances.antt =====
-- src/handlers/operator_handler/operator_handler_state.rs, `OperatorHandlerState`. An id is the number
-- of a `u128`. The cancellation token of an instance, and `close`, which cancels it, are left out.
use chapterhouse_qe.Common.{
  ℕ, Bool, true, false, List, [], ◌∷◌, ◌++◌, ◌==◌, if◌then◌else◌, any, Text, Outcome, ok, err,
}
use chapterhouse_qe.External.{External}
use chapterhouse_qe.Planner.Physical.Operators.{Operator}
use chapterhouse_qe.Workers.Compute.{TotalOperatorCompute, subtract, add_single_operator_compute}

pub data OperatorHandlerStateError : Type 0 where
  operator_instance_not_found : ℕ → OperatorHandlerStateError

pub data Status : Type 0 where
  running : Status
  complete : Status
  error : Text → Status

abbrev pub is_running : Status → Bool
is_running running = true
is_running complete = false
is_running (error text) = false

module _ (X : External) where
  pub record OperatorInstanceConfig : Type 0 where
    pub id : ℕ
    pub query_id : ℕ
    pub pipeline_id : Text
    pub operator : Operator X

  pub record OperatorInstance : Type 0 where
    pub status : Status
    pub config : OperatorInstanceConfig

  pub record OperatorHandlerState : Type 0 where
    pub operator_instances : List OperatorInstance
    pub allowed_compute : TotalOperatorCompute

module _ {X : External} where
  unfoldable pub new : TotalOperatorCompute → OperatorHandlerState X
  new allowed = record { operator_instances = []; allowed_compute = allowed }

  unfoldable pub add_operator_instance :
      OperatorHandlerState X → OperatorInstance X → OperatorHandlerState X
  add_operator_instance s op_in = record s {
    operator_instances = s.operator_instances ++ (op_in ∷ []);
  }

  -- `iter_mut().find(..)`, and the status of what it finds.
  unfoldable pub set_first : ℕ → Status → List (OperatorInstance X) → List (OperatorInstance X)
  set_first op_in_id status [] = []
  set_first op_in_id status (op_in ∷ rest) =
      if op_in.config.id == op_in_id
      then record op_in { status = status } ∷ rest
      else op_in ∷ set_first op_in_id status rest

  unfoldable pub set_status :
      OperatorHandlerState X
      → ℕ
      → Status
      → Outcome OperatorHandlerStateError (OperatorHandlerState X)
  unfolding set_first
  set_status s op_in_id status =
      if any (λ op_in. op_in.config.id == op_in_id) s.operator_instances
      then ok (record s { operator_instances = set_first op_in_id status s.operator_instances })
      else err (operator_instance_not_found op_in_id)

  unfoldable pub operator_instance_complete :
      OperatorHandlerState X → ℕ → Outcome OperatorHandlerStateError (OperatorHandlerState X)
  unfolding set_status
  operator_instance_complete s op_in_id = set_status s op_in_id complete

  unfoldable pub operator_instance_error :
      OperatorHandlerState X → ℕ → Text → Outcome OperatorHandlerStateError (OperatorHandlerState X)
  unfolding set_status
  operator_instance_error s op_in_id error_txt = set_status s op_in_id (error error_txt)

  -- One turn of the loop over the instances.
  unfoldable pub count_instance : TotalOperatorCompute → OperatorInstance X → TotalOperatorCompute
  unfolding add_single_operator_compute
  count_instance total op =
      if is_running op.status
      then add_single_operator_compute total (record op.config.operator.compute { instances = 1 })
      else total

  unfoldable pub count_instances :
      TotalOperatorCompute → List (OperatorInstance X) → TotalOperatorCompute
  unfolding count_instance
  count_instances total [] = total
  count_instances total (op ∷ ops) = count_instances (count_instance total op) ops

  unfoldable pub total_operator_compute : OperatorHandlerState X → TotalOperatorCompute
  unfolding count_instances
  total_operator_compute s =
      count_instances (record { instances = 0; memory_in_mib = 0; cpu_in_thousandths = 0 })
        s.operator_instances

  unfoldable pub get_allowed_compute : OperatorHandlerState X → TotalOperatorCompute
  get_allowed_compute s = s.allowed_compute

  unfoldable pub compute_available : OperatorHandlerState X → TotalOperatorCompute
  unfolding subtract get_allowed_compute total_operator_compute
  compute_available s = subtract (get_allowed_compute s) (total_operator_compute s)
