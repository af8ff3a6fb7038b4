-- ===== src/Workers/Queries/Claims/Settling.antt =====
-- Which instances a claim takes, and which it leaves.
use chapterhouse_qe.Common.{
  ℕ, ◌≡◌, refl, ◌∙◌, true, false, ◌||◌, none, some, List, [], ◌∷◌, ◌++◌, arith, Bool-cases,
  Option-cases, inl, inr,
}
use chapterhouse_qe.External.{External}
use chapterhouse_qe.Planner.Physical.Operators.{Operator, PhysicalPlan, get_operator}
use chapterhouse_qe.Workers.Compute.{
  TotalOperatorCompute, any_depleated, subtract_single_operator_compute, IsWithin,
}
use chapterhouse_qe.Workers.Queries.{
  Query, QueryHandlerState, OperatorInstance, Status, terminal, is_running,
}
use chapterhouse_qe.Workers.Queries
use chapterhouse_qe.Workers.Queries.Claims.{
  Claim, claimable, claim_instances, claim_queries, started, sent,
  claim_operator_instances_up_to_compute_available,
}
use chapterhouse_qe.Workers.Queries.Claims.Budget.{
  IsSpent, claim_instances-IsSpent, claim_queries-IsSpent, depleated_monotone, depleated_stays,
}
use chapterhouse_qe.Workers.Queries.Claims.Reasons.{
  IsOpen, open_lem, CannotTake, claimable-CannotTake,
}

IsWithin-trans : (a b c : TotalOperatorCompute) → IsWithin a b → IsWithin b c → IsWithin a c
IsWithin-trans a b c v w =
    (omega (arith, v.0, w.0), omega (arith, v.1, w.1), omega (arith, v.2, w.2))

module _ {X : External} where
  -- The instances of a query before and after a claim, and the entries of the result: `left` is the
  -- compute that remains in the end.
  pub data Settled (plan : PhysicalPlan X) (id : ℕ) (left : TotalOperatorCompute)
      : List OperatorInstance → List OperatorInstance → List (Claim X) → Type 0 where
    done : Settled plan id left [] [] []
    passed :
        {op_in : OperatorInstance} {ops ops' : List OperatorInstance} {cs : List (Claim X)}
        → CannotTake plan left op_in
        → Settled plan id left ops ops' cs
        → Settled plan id left (op_in ∷ ops) (op_in ∷ ops') cs
    claimed :
        {op_in : OperatorInstance} {ops ops' : List OperatorInstance} {cs : List (Claim X)}
        {operator : Operator X}
        → IsOpen op_in.status
        → get_operator plan op_in.pipeline_id op_in.operator_id ≡ some operator
        → Settled plan id left ops ops' cs
        → Settled plan id left
            (op_in ∷ ops)
            (sent op_in ∷ ops')
            (record { query_id = id; op_in = sent op_in; operator = operator } ∷ cs)

  -- A query is started by its first claim.
  abbrev pub status_after : Status → List (Claim X) → Status
  status_after status [] = status
  status_after status (c ∷ cs) = started status

  pub data AllSettled (left : TotalOperatorCompute)
      : List (Query X) → List (Query X) → List (Claim X) → Type 0 where
    all_done : AllSettled left [] [] []
    closed :
        {q : Query X} {qs qs' : List (Query X)} {cs : List (Claim X)}
        → terminal q.status ≡ true
        → AllSettled left qs qs' cs
        → AllSettled left (q ∷ qs) (q ∷ qs') cs
    open_query :
        {q : Query X} {ops' : List OperatorInstance} {qs qs' : List (Query X)}
        {cs ds : List (Claim X)}
        → terminal q.status ≡ false
        → Settled q.physical_plan q.id left q.operator_instances ops' cs
        → AllSettled left qs qs' ds
        → AllSettled left
            (q ∷ qs)
            (record q { status = status_after q.status cs; operator_instances = ops' } ∷ qs')
            (cs ++ ds)

  IsSpent-IsWithin :
      (c c' : TotalOperatorCompute) (cs : List (Claim X)) → IsSpent c c' cs → IsWithin c' c
  IsSpent-IsWithin c c' cs v = (
    omega (arith, v.instances),
    omega (arith, v.memory_in_mib),
    omega (arith, v.cpu_in_thousandths),
  )

  unaffordable :
      (plan : PhysicalPlan X) (c c' : TotalOperatorCompute) (op_in : OperatorInstance)
      → IsWithin c' c
      → claimable plan c op_in ≡ none
      → claimable plan c' op_in ≡ none
  unfolding claimable
  unaffordable plan c c' op_in w h =
      elim (Option-cases (get_operator plan op_in.pipeline_id op_in.operator_id)) [
        | inl e ↦ rw (e, claimable) refl
        | inr (o, e) ↦ ground (
          arith,
          e,
          h,
          λ (d : any_depleated (subtract_single_operator_compute c o.compute) ≡ true).
              depleated_monotone c c' o.compute w d,
        )
      ]

  claimable_open :
      (plan : PhysicalPlan X) (c : TotalOperatorCompute) (op_in : OperatorInstance) (o : Operator X)
      → claimable plan c op_in ≡ some o
      → ((is_running op_in.status || terminal op_in.status) ≡ false)
        × (get_operator plan op_in.pipeline_id op_in.operator_id ≡ some o)
  unfolding claimable
  claimable_open plan c op_in o h = (ground (arith, h), ground (arith, h))

  depleated_claimable :
      (plan : PhysicalPlan X) (c : TotalOperatorCompute) (op_in : OperatorInstance)
      → any_depleated c ≡ true
      → claimable plan c op_in ≡ none
  unfolding claimable
  depleated_claimable plan c op_in h =
      elim (Option-cases (get_operator plan op_in.pipeline_id op_in.operator_id)) [
        | inl e ↦ rw (e, claimable) refl
        | inr (o, e) ↦ rw (e, depleated_stays c o.compute h, claimable) (ground arith)
      ]

  settle :
      (plan : PhysicalPlan X) (id : ℕ) (status : Status) (c left : TotalOperatorCompute)
      (ops : List OperatorInstance)
      → IsWithin left (claim_instances plan id status c ops).compute
      → Settled plan id left ops
          (claim_instances plan id status c ops).operator_instances
          (claim_instances plan id status c ops).result
  unfolding claim_instances
  settle plan id status c left [] = λ w. done
  settle plan id status c left (op_in ∷ ops) = elim (Option-cases (claimable plan c op_in)) [
    | inl e ↦
        let r = claim_instances plan id status c ops in
        let spent = claim_instances-IsSpent plan id status c ops in
        rw (e, claim_instances)
          (λ w.
            passed
              (claimable-CannotTake plan left op_in (
                unaffordable plan c left op_in
                  (IsWithin-trans left r.compute c w (IsSpent-IsWithin c r.compute r.result spent))
                  e))
              (settle plan id status c left ops w))
    | inr (o, e) ↦
        let taken = claimable_open plan c op_in o e in
        rw (e, claim_instances)
          (λ w. claimed (open_lem op_in.status (taken.0)) (taken.1) (
            settle plan id (started status) (subtract_single_operator_compute c o.compute) left ops
              w))
  ]

  started_twice :
      (status : Status) (cs : List (Claim X)) → status_after (started status) cs ≡ started status
  started_twice status [] = refl
  started_twice Queries.queued (c ∷ cs) = refl
  started_twice Queries.sending_to_worker (c ∷ cs) = refl
  started_twice Queries.running (c ∷ cs) = refl
  started_twice (Queries.sent_shutdown time) (c ∷ cs) = refl
  started_twice Queries.complete (c ∷ cs) = refl
  started_twice (Queries.error text) (c ∷ cs) = refl

  status_lem :
      (plan : PhysicalPlan X) (id : ℕ) (status : Status) (c : TotalOperatorCompute)
      (ops : List OperatorInstance)
      → (claim_instances plan id status c ops).status
        ≡ status_after status (claim_instances plan id status c ops).result
  unfolding claim_instances
  status_lem plan id status c [] = refl
  status_lem plan id status c (op_in ∷ ops) = elim (Option-cases (claimable plan c op_in)) [
    | inl e ↦ rw (e, claim_instances) (status_lem plan id status c ops)
    | inr (o, e) ↦
        let r =
          claim_instances plan id (started status) (subtract_single_operator_compute c o.compute)
            ops in
        rw (e, claim_instances)
          (status_lem plan id (started status) (subtract_single_operator_compute c o.compute) ops
            ∙ started_twice status r.result)
  ]

  -- A depleted compute settles every query as it is.
  nothing-Settled :
      (plan : PhysicalPlan X) (id : ℕ) (left : TotalOperatorCompute) (ops : List OperatorInstance)
      → any_depleated left ≡ true
      → Settled plan id left ops ops []
  nothing-Settled plan id left [] h = done
  nothing-Settled plan id left (op_in ∷ ops) h =
      passed (claimable-CannotTake plan left op_in (depleated_claimable plan left op_in h))
        (nothing-Settled plan id left ops h)

  none-AllSettled :
      (left : TotalOperatorCompute) (qs : List (Query X))
      → any_depleated left ≡ true
      → AllSettled left qs qs []
  none-AllSettled left [] h = all_done
  none-AllSettled left (q ∷ qs) h = elim (Bool-cases (terminal q.status)) [
    | inl t ↦ closed t (none-AllSettled left qs h)
    | inr t ↦
        open_query t (nothing-Settled q.physical_plan q.id left q.operator_instances h)
          (none-AllSettled left qs h)
  ]

  settle_queries :
      (c : TotalOperatorCompute) (qs : List (Query X))
      → AllSettled
          (claim_queries c qs).compute
          qs
          (claim_queries c qs).queries
          (claim_queries c qs).result
  unfolding claim_queries
  settle_queries c [] = all_done
  settle_queries c (q ∷ qs) = elim (Bool-cases (any_depleated c)) [
    | inl e ↦ rw (e, claim_queries) (none-AllSettled c (q ∷ qs) e)
    | inr e ↦ elim (Bool-cases (terminal q.status)) [
      | inl t ↦ rw (e, t, claim_queries) (closed t (settle_queries c qs))
      | inr t ↦
          let here = claim_instances q.physical_plan q.id q.status c q.operator_instances in
          let rest = claim_queries here.compute qs in
          rw (e, t, claim_queries, status_lem q.physical_plan q.id q.status c q.operator_instances)
            (open_query t
              (settle q.physical_plan q.id q.status c rest.compute q.operator_instances (
                IsSpent-IsWithin here.compute rest.compute rest.result
                  (claim_queries-IsSpent here.compute qs)))
              (settle_queries here.compute qs))
    ]
  ]

  -- A claim is greedy and complete: with `left` the compute that remains when what the claimed operators
  -- ask for is taken from the available one, the result and the new state are such that the instances
  -- of terminal queries are untouched; of every other query each instance is either untouched, and then
  -- has no operator in the plan, or is running, complete or failed, or asks for at least what is left of
  -- memory or cpu, or finds at most one instance left; or it was queued, sent to a worker or told to shut
  -- down, has an operator in the plan, is marked as sent, and is the next entry of the result with its
  -- query and operator; and a queued query is running if and only if one of its instances was
  -- claimed.
  pub claim-AllSettled :
      (s : QueryHandlerState X) (available : TotalOperatorCompute)
      → (left : TotalOperatorCompute) × IsSpent available left
          (claim_operator_instances_up_to_compute_available s available).1
        × AllSettled left s.queries
            (claim_operator_instances_up_to_compute_available s available).0.queries
            (claim_operator_instances_up_to_compute_available s available).1
  unfolding claim_operator_instances_up_to_compute_available
  claim-AllSettled s available = (
    (claim_queries available s.queries).compute,
    claim_queries-IsSpent available s.queries,
    settle_queries available s.queries,
  )
