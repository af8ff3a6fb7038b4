-- ===== src/Workers/Queries/Consumers.antt =====
-- Which exchanges of a query have no consumers left.
use chapterhouse_qe.Common.{
  ℕ, ◌≡◌, refl, ap, Bool, true, false, not, ◌&&◌, ◌||◌, List, [], ◌∷◌, ◌++◌, map, any, any-append,
  all, select, Text, text_eq, ok, arith, Bool-cases, inl, inr,
}
use chapterhouse_qe.External.{External}
use chapterhouse_qe.Planner.Physical.Operators.{
  Operator, OperatorType, Pipeline, producer, exchange,
}
use chapterhouse_qe.Workers.Queries.{
  Query, QueryHandlerState, OperatorInstance, find_query, get_operator_instances, is_complete,
}
use chapterhouse_qe.Workers.Queries.Exchanges.{
  any_not_complete, has_no_consumers, exchanges_of_operators, exchanges_of_pipelines,
  get_exchange_ids_without_any_consumers,
}

-- Every instance of an operator of the list is complete.
abbrev pub all_complete : List OperatorInstance → List Text → Bool
all_complete ops ids =
    all (λ op_in. not (any (text_eq op_in.operator_id) ids) || is_complete op_in.status) ops

one_complete :
    (ops : List OperatorInstance) (id : Text)
    → any
        (λ op_in. not (is_complete op_in.status))
        (select (λ item. text_eq item.operator_id id) ops)
      ≡ not (all (λ op_in. not (text_eq op_in.operator_id id) || is_complete op_in.status) ops)
one_complete [] id = refl
one_complete (op ∷ ops) id = ground (arith, one_complete ops id)

all_complete-cons :
    (ops : List OperatorInstance) (id : Text) (ids : List Text)
    → all_complete ops (id ∷ ids) ≡ (
        all (λ op_in. not (text_eq op_in.operator_id id) || is_complete op_in.status) ops
        && all_complete ops ids)
all_complete-cons [] id ids = refl
all_complete-cons (op ∷ ops) id ids = ground (arith, all_complete-cons ops id ids)

all_complete-append :
    (ops : List OperatorInstance) (ids jds : List Text)
    → all_complete ops (ids ++ jds) ≡ (all_complete ops ids && all_complete ops jds)
all_complete-append [] ids jds = refl
all_complete-append (op ∷ ops) ids jds =
    ground (arith, all_complete-append ops ids jds, any-append (text_eq op.operator_id) ids jds)

all_complete-nil : (ops : List OperatorInstance) → all_complete ops [] ≡ true
all_complete-nil [] = refl
all_complete-nil (op ∷ ops) = all_complete-nil ops

module _ {X : External} where
  -- An exchange that no instance reads from or writes to any more.
  abbrev pub is_idle : List OperatorInstance → OperatorType X → Bool
  is_idle ops (producer task out ins) = false
  is_idle ops (exchange task outs ins) = all_complete ops (outs ++ ins)

  abbrev pub all_operators : List (Pipeline X) → List (Operator X)
  all_operators [] = []
  all_operators (p ∷ ps) = p.operators ++ all_operators ps

  abbrev idle_ids : List OperatorInstance → List (Operator X) → List Text
  idle_ids instances ops = map (λ op. op.id) (select (λ op. is_idle instances op.operator_type) ops)

  idle_ids-append :
      (instances : List OperatorInstance) (ops more : List (Operator X))
      → idle_ids instances (ops ++ more) ≡ idle_ids instances ops ++ idle_ids instances more
  idle_ids-append instances [] more = refl
  idle_ids-append instances (op ∷ ops) more =
      elim (Bool-cases (is_idle instances op.operator_type)) [
        | inl e ↦ rw (e) (ap (λ ids. op.id ∷ ids) (idle_ids-append instances ops more))
        | inr e ↦ rw (e) (idle_ids-append instances ops more)
      ]

  module _ (s : QueryHandlerState X) (id : ℕ) (q : Query X) (found : find_query s id ≡ ok q) where
    instances_lem :
        (x : Text)
        → get_operator_instances s id x
          ≡ ok (select (λ item. text_eq item.operator_id x) q.operator_instances)
    unfolding get_operator_instances
    instances_lem x = rw (found, get_operator_instances) refl

    any_not_complete_lem :
        (ids : List Text)
        → any_not_complete s id ids ≡ ok (not (all_complete q.operator_instances ids))
    unfolding any_not_complete
    any_not_complete_lem [] = rw (all_complete-nil q.operator_instances) refl
    any_not_complete_lem (x ∷ ids) =
        rw
          (
            instances_lem x,
            any_not_complete,
            one_complete q.operator_instances x,
            all_complete-cons q.operator_instances x ids,
            any_not_complete_lem ids,
          )
          (ground arith)

    has_no_consumers_lem :
        (t : OperatorType X) → has_no_consumers s id t ≡ ok (is_idle q.operator_instances t)
    unfolding has_no_consumers
    has_no_consumers_lem (producer task out ins) = refl
    has_no_consumers_lem (exchange task outs ins) =
        rw
          (
            any_not_complete_lem outs,
            any_not_complete_lem ins,
            has_no_consumers,
            all_complete-append q.operator_instances outs ins,
          )
          (ground arith)

    operators_lem :
        (ops : List (Operator X))
        → exchanges_of_operators s id ops ≡ ok (idle_ids q.operator_instances ops)
    unfolding exchanges_of_operators
    operators_lem [] = refl
    operators_lem (op ∷ ops) =
        rw (has_no_consumers_lem op.operator_type, exchanges_of_operators, operators_lem ops)
          (elim (Bool-cases (is_idle q.operator_instances op.operator_type)) [
            | inl e ↦ rw (e) refl
            | inr e ↦ rw (e) refl
          ])

    pipelines_lem :
        (ps : List (Pipeline X))
        → exchanges_of_pipelines s id ps ≡ ok (idle_ids q.operator_instances (all_operators ps))
    unfolding exchanges_of_pipelines
    pipelines_lem [] = refl
    pipelines_lem (p ∷ ps) =
        rw
          (
            operators_lem p.operators,
            exchanges_of_pipelines,
            pipelines_lem ps,
            idle_ids-append q.operator_instances p.operators (all_operators ps),
          )
          refl

  -- For a query that the state has, the ids returned are those of all its exchanges, in the plan's
  -- order, to which and from which every instance of every producer is complete: no call fails and none
  -- is left out.
  pub get_exchange_ids_without_any_consumers_lem :
      (s : QueryHandlerState X) (id : ℕ) (q : Query X)
      → find_query s id ≡ ok q
      → get_exchange_ids_without_any_consumers s id
        ≡ ok (
            map
              (λ op. op.id)
              (select
                (λ op. is_idle q.operator_instances op.operator_type)
                (all_operators q.physical_plan.pipelines)))
  unfolding get_exchange_ids_without_any_consumers
  get_exchange_ids_without_any_consumers_lem s id q found =
      rw (found, get_exchange_ids_without_any_consumers)
        (pipelines_lem s id q found q.physical_plan.pipelines)
