-- ===== src/Examples/Claims.antt =====
-- src/handlers/query_handler and src/handlers/operator_handler: one query of two operators.
use chapterhouse_qe.Common.{
  ℕ, ◌≡◌, refl, ◌+◌, ◌<◌, ◌⊎◌, inr, true, [], ◌∷◌, map, select, any, length, if◌then◌else◌, All,
  Text, codes, text_eq, ok, arith,
}
use chapterhouse_qe.Planner.Physical.Operators.{
  Operator, OperatorCompute, Pipeline, PhysicalPlan, get_operator, search_pipelines, producer,
  exchange,
}
use chapterhouse_qe.Planner.Physical.Operators
use chapterhouse_qe.Workers.Compute.{
  TotalOperatorCompute, any_greater_than, add, subtract, add-subtract, any_depleated,
  subtract_single_operator_compute, add_single_operator_compute, wrap,
}
use chapterhouse_qe.Workers.Instances
use chapterhouse_qe.Workers.Totals.{
  running_cpu, last_running_memory, total_operator_compute_lem, operator_instance_complete-releases,
}
use chapterhouse_qe.Workers.Queries.{
  Query, QueryHandlerState, new_query, find_query, init, update_operator_instance_status,
  get_operator_instance, find_operator_instance, OperatorInstance, queued, running, terminal,
}
use chapterhouse_qe.Workers.Queries.Claims.{
  claim_operator_instances_up_to_compute_available, claim_queries, claim_instances, claimable,
}
use chapterhouse_qe.Workers.Queries.Claims.Budget.{
  IsSpent, claimed_memory, claimed_cpu, claim-within_available,
}
use chapterhouse_qe.Workers.Queries.Claims.Settling.{AllSettled, claim-AllSettled}
use chapterhouse_qe.Workers.Queries.Exchanges.{get_exchange_ids_without_any_consumers}
use chapterhouse_qe.Workers.Queries.Consumers.{
  is_idle, all_operators, get_exchange_ids_without_any_consumers_lem,
}
use chapterhouse_qe.Workers.Queries.Init.{place, places, init-places}
use chapterhouse_qe.Workers.Queries.Updates.{
  update_operator_instance_status-get, update_operator_instance_status-get_other,
}
use chapterhouse_qe.Examples.Demo.{demo}

abbrev pub compute : ℕ → ℕ → ℕ → TotalOperatorCompute
compute i m c = record { instances = i; memory_in_mib = m; cpu_in_thousandths = c }

abbrev pub reader : Operator demo
reader = record {
  id = codes "r";
  plan_id = 0;
  operator_type = producer (Operators.filter 3) (codes "x") [];
  compute = record { instances = 1; memory_in_mib = 512; cpu_in_thousandths = 1000 };
}

abbrev buffer : Operator demo
buffer = record {
  id = codes "x";
  plan_id = 0;
  operator_type = exchange (Operators.filter 3) [] (codes "r" ∷ []);
  compute = record { instances = 1; memory_in_mib = 128; cpu_in_thousandths = 200 };
}

abbrev pub plan : PhysicalPlan demo
plan = record { pipelines = record { id = codes "p"; operators = reader ∷ buffer ∷ [] } ∷ [] }

abbrev pub instance_of : ℕ → Text → OperatorInstance
instance_of id operator_id = record {
  id = id;
  status = queued;
  pipeline_id = codes "p";
  operator_id = operator_id;
}

abbrev pub one_query : Query demo
one_query = record {
  id = 1;
  query = codes "select";
  physical_plan = plan;
  status = queued;
  operator_instances = instance_of 10 (codes "r") ∷ instance_of 11 (codes "x") ∷ [];
}

abbrev pub state : QueryHandlerState demo
state = record { queries = one_query ∷ [] }

-- The second operator does not fit any more.
claim_run :
    map
      (λ c. c.op_in.id)
      (claim_operator_instances_up_to_compute_available state (compute 2 600 4000)).1
    ≡ 10 ∷ []
unfolding claim_operator_instances_up_to_compute_available claim_queries claim_instances claimable
    get_operator search_pipelines any_depleated subtract_single_operator_compute terminal text_eq
claim_run = refl

claim-within_available_example :
    let cs = (claim_operator_instances_up_to_compute_available state (compute 2 600 4000)).1 in
    ((any_depleated (compute 2 600 4000) ≡ true) × (cs ≡ []))
    ⊎ ((length cs < 2) × (claimed_memory cs < 600) × (claimed_cpu cs < 4000))
claim-within_available_example = claim-within_available state (compute 2 600 4000)

claim-AllSettled_example :
    (left : TotalOperatorCompute) × IsSpent
      (compute 2 600 4000)
      left
      (claim_operator_instances_up_to_compute_available state (compute 2 600 4000)).1
    × AllSettled left state.queries
        (claim_operator_instances_up_to_compute_available state (compute 2 600 4000)).0.queries
        (claim_operator_instances_up_to_compute_available state (compute 2 600 4000)).1
claim-AllSettled_example = claim-AllSettled state (compute 2 600 4000)

get_exchange_ids_without_any_consumers_lem_example :
    get_exchange_ids_without_any_consumers state 1
    ≡ ok (
        map
          (λ op. op.id)
          (select
            (λ op. is_idle one_query.operator_instances op.operator_type)
            (all_operators one_query.physical_plan.pipelines)))
unfolding find_query
get_exchange_ids_without_any_consumers_lem_example =
    get_exchange_ids_without_any_consumers_lem state 1 one_query refl

init-places_example :
    (map place (init (λ k. k + 5) (new_query 1 (codes "select") plan)).operator_instances
      ≡ places plan.pipelines)
    × All
        (λ o. o.status ≡ queued)
        (init (λ k. k + 5) (new_query 1 (codes "select") plan)).operator_instances
init-places_example = init-places (λ k. k + 5) 1 (codes "select") plan

update_operator_instance_status-get_example :
    (s' : QueryHandlerState demo) × (update_operator_instance_status state 1 11 running ≡ ok s')
    × (get_operator_instance s' 1 11
        ≡ ok (record (instance_of 11 (codes "x")) { status = running }))
unfolding get_operator_instance find_query find_operator_instance
update_operator_instance_status-get_example =
    update_operator_instance_status-get state 1 11 running (instance_of 11 (codes "x")) refl

-- The state after that update.
abbrev updated : QueryHandlerState demo
updated = record {
  queries =
      record one_query {
        operator_instances =
            instance_of 10 (codes "r")
            ∷ record (instance_of 11 (codes "x")) { status = running }
            ∷ [];
      }
      ∷ [];
}

update_operator_instance_status-get_other_example :
    get_operator_instance updated 1 10 ≡ get_operator_instance state 1 10
unfolding update_operator_instance_status
update_operator_instance_status-get_other_example =
    update_operator_instance_status-get_other state updated 1 11 running 1 10 refl
      (inr (λ e. ground (arith, e)))

abbrev running_instance : ℕ → Operator demo → Instances.OperatorInstance demo
running_instance id operator = record {
  status = Instances.running;
  config = record { id = id; query_id = 1; pipeline_id = codes "p"; operator = operator };
}

abbrev worker : Instances.OperatorHandlerState demo
worker = record {
  operator_instances = running_instance 10 reader ∷ running_instance 11 buffer ∷ [];
  allowed_compute = compute 4 4096 4000;
}

-- Two instances of 512 and 128 MiB run, and one of 128 MiB is counted.
total_run : Instances.total_operator_compute worker ≡ compute 1 128 1200
unfolding Instances.total_operator_compute Instances.count_instances Instances.count_instance
    add_single_operator_compute
total_run = refl

total_operator_compute_lem_example : Instances.total_operator_compute worker ≡ record {
  instances = if any (λ op. Instances.is_running op.status) worker.operator_instances then 1 else 0;
  memory_in_mib = last_running_memory 0 worker.operator_instances;
  cpu_in_thousandths = wrap (running_cpu worker.operator_instances);
}
total_operator_compute_lem_example = total_operator_compute_lem worker

operator_instance_complete-releases_example :
    (s' : Instances.OperatorHandlerState demo) × (Instances.operator_instance_complete worker 11
      ≡ ok s')
    × ((Instances.total_operator_compute worker).cpu_in_thousandths
        ≡ wrap (200 + (Instances.total_operator_compute s').cpu_in_thousandths))
operator_instance_complete-releases_example =
    operator_instance_complete-releases worker 11 (running_instance 11 buffer) refl refl

add-subtract_example :
    add (subtract (compute 4 4096 4000) (compute 1 128 1200)) (compute 1 128 1200)
    ≡ compute 4 4096 4000
unfolding any_greater_than
add-subtract_example =
    add-subtract (compute 4 4096 4000) (compute 1 128 1200) refl (ground arith) (ground arith)
      (ground arith)
