-- ===== src/Workers/Queries/Claims/Budget.antt =====
-- A claim takes no more than the compute that was available.
use chapterhouse_qe.Common.{
  ℕ, ◌+◌, ◌<◌, ◌≡◌, refl, sym, ◌∙◌, true, false, some, List, [], ◌∷◌, ◌++◌, length, length-append,
  arith, Bool-cases, Option-cases, inl, inr, ◌⊎◌,
}
use chapterhouse_qe.External.{External}
use chapterhouse_qe.Planner.Physical.Operators.{Operator, OperatorCompute, PhysicalPlan}
use chapterhouse_qe.Workers.Compute.{
  TotalOperatorCompute, any_depleated, subtract_single_operator_compute, IsWithin,
}
use chapterhouse_qe.Workers.Queries.{Query, QueryHandlerState, OperatorInstance, Status, terminal}
use chapterhouse_qe.Workers.Queries.Claims.{
  Claim, claimable, claim_instances, claim_queries, started, sent,
  claim_operator_instances_up_to_compute_available,
}

-- Every field is either enough for the operator with something left, or the result is depleted.
pub subtract_single_lem :
    (c : TotalOperatorCompute) (o : OperatorCompute)
    → any_depleated (subtract_single_operator_compute c o) ≡ false
    → ((subtract_single_operator_compute c o).instances + 1 ≡ c.instances)
      × ((subtract_single_operator_compute c o).memory_in_mib + o.memory_in_mib ≡ c.memory_in_mib)
      × ((subtract_single_operator_compute c o).cpu_in_thousandths + o.cpu_in_thousandths
          ≡ c.cpu_in_thousandths)
      × (any_depleated c ≡ false)
unfolding any_depleated subtract_single_operator_compute
subtract_single_lem c o h =
    (ground (arith, h), ground (arith, h), ground (arith, h), ground (arith, h))

-- What a depleted compute leaves is depleted, and a smaller compute leaves no more.
pub depleated_monotone :
    (c c' : TotalOperatorCompute) (o : OperatorCompute)
    → IsWithin c' c
    → any_depleated (subtract_single_operator_compute c o) ≡ true
    → any_depleated (subtract_single_operator_compute c' o) ≡ true
unfolding any_depleated subtract_single_operator_compute
depleated_monotone c c' o w h = ground (arith, h, w.0, w.1, w.2)

pub depleated_stays :
    (c : TotalOperatorCompute) (o : OperatorCompute)
    → any_depleated c ≡ true
    → any_depleated (subtract_single_operator_compute c o) ≡ true
unfolding any_depleated subtract_single_operator_compute
depleated_stays c o h = ground (arith, h)

some_left :
    (c : TotalOperatorCompute)
    → any_depleated c ≡ false
    → (0 < c.instances) × (0 < c.memory_in_mib) × (0 < c.cpu_in_thousandths)
unfolding any_depleated
some_left c h = (ground (arith, h), ground (arith, h), ground (arith, h))

module _ {X : External} where
  abbrev pub claimed_memory : List (Claim X) → ℕ
  claimed_memory [] = 0
  claimed_memory (c ∷ cs) = c.operator.compute.memory_in_mib + claimed_memory cs

  abbrev pub claimed_cpu : List (Claim X) → ℕ
  claimed_cpu [] = 0
  claimed_cpu (c ∷ cs) = c.operator.compute.cpu_in_thousandths + claimed_cpu cs

  -- The first compute is the second one and what the claims take; a claim leaves some of each.
  pub record IsSpent (c c' : TotalOperatorCompute) (cs : List (Claim X)) : Type 0 where
    pub instances : c'.instances + length cs ≡ c.instances
    pub memory_in_mib : c'.memory_in_mib + claimed_memory cs ≡ c.memory_in_mib
    pub cpu_in_thousandths : c'.cpu_in_thousandths + claimed_cpu cs ≡ c.cpu_in_thousandths
    pub depleated : any_depleated c' ≡ any_depleated c

  claimable_lem :
      (plan : PhysicalPlan X) (c : TotalOperatorCompute) (op_in : OperatorInstance) (o : Operator X)
      → claimable plan c op_in ≡ some o
      → any_depleated (subtract_single_operator_compute c o.compute) ≡ false
  unfolding claimable
  claimable_lem plan c op_in o h = ground (arith, h)

  IsSpent-none : (c : TotalOperatorCompute) → IsSpent c c []
  IsSpent-none c = record {
    instances = ground arith;
    memory_in_mib = ground arith;
    cpu_in_thousandths = ground arith;
    depleated = refl;
  }

  IsSpent-one :
      (c c' : TotalOperatorCompute) (x : Claim X) (cs : List (Claim X))
      → any_depleated (subtract_single_operator_compute c x.operator.compute) ≡ false
      → IsSpent (subtract_single_operator_compute c x.operator.compute) c' cs
      → IsSpent c c' (x ∷ cs)
  IsSpent-one c c' x cs h v =
      let one = subtract_single_lem c x.operator.compute h in
      record {
        instances = omega (arith, one.0, v.instances);
        memory_in_mib = omega (arith, one.1, v.memory_in_mib);
        cpu_in_thousandths = omega (arith, one.2, v.cpu_in_thousandths);
        depleated = v.depleated ∙ h ∙ sym (one.3);
      }

  claims_append :
      (cs ds : List (Claim X))
      → (claimed_memory (cs ++ ds) ≡ claimed_memory cs + claimed_memory ds)
        × (claimed_cpu (cs ++ ds) ≡ claimed_cpu cs + claimed_cpu ds)
  claims_append [] ds = (ground arith, ground arith)
  claims_append (c ∷ cs) ds =
      let rest = claims_append cs ds in (omega (arith, rest.0), omega (arith, rest.1))

  IsSpent-append :
      (c d e : TotalOperatorCompute) (cs ds : List (Claim X))
      → IsSpent c d cs
      → IsSpent d e ds
      → IsSpent c e (cs ++ ds)
  IsSpent-append c d e cs ds v w = record {
    instances = omega (arith, length-append cs ds, v.instances, w.instances);
    memory_in_mib = omega (arith, (claims_append cs ds).0, v.memory_in_mib, w.memory_in_mib);
    cpu_in_thousandths =
        omega (arith, (claims_append cs ds).1, v.cpu_in_thousandths, w.cpu_in_thousandths);
    depleated = w.depleated ∙ v.depleated;
  }

  pub claim_instances-IsSpent :
      (plan : PhysicalPlan X) (id : ℕ) (status : Status) (c : TotalOperatorCompute)
      (ops : List OperatorInstance)
      → IsSpent c
          (claim_instances plan id status c ops).compute
          (claim_instances plan id status c ops).result
  unfolding claim_instances
  claim_instances-IsSpent plan id status c [] = IsSpent-none c
  claim_instances-IsSpent plan id status c (op_in ∷ ops) =
      elim (Option-cases (claimable plan c op_in)) [
        | inl e ↦ rw (e, claim_instances) (claim_instances-IsSpent plan id status c ops)
        | inr (o, e) ↦
            rw (e, claim_instances)
              (IsSpent-one c _ (record { query_id = id; op_in = sent op_in; operator = o }) _
                (claimable_lem plan c op_in o e)
                (claim_instances-IsSpent plan id (started status)
                  (subtract_single_operator_compute c o.compute) ops))
      ]

  pub claim_queries-IsSpent :
      (c : TotalOperatorCompute) (qs : List (Query X))
      → IsSpent c (claim_queries c qs).compute (claim_queries c qs).result
  unfolding claim_queries
  claim_queries-IsSpent c [] = IsSpent-none c
  claim_queries-IsSpent c (q ∷ qs) = elim (Bool-cases (any_depleated c)) [
    | inl e ↦ rw (e, claim_queries) (IsSpent-none c)
    | inr e ↦ elim (Bool-cases (terminal q.status)) [
      | inl t ↦ rw (e, t, claim_queries) (claim_queries-IsSpent c qs)
      | inr t ↦
          let here = claim_instances q.physical_plan q.id q.status c q.operator_instances in
          rw (e, t, claim_queries)
            (IsSpent-append c here.compute (claim_queries here.compute qs).compute here.result
              (claim_queries here.compute qs).result
              (claim_instances-IsSpent q.physical_plan q.id q.status c q.operator_instances)
              (claim_queries-IsSpent here.compute qs))
    ]
  ]

  nothing_claimed :
      (c : TotalOperatorCompute) (qs : List (Query X))
      → any_depleated c ≡ true
      → (claim_queries c qs).result ≡ []
  unfolding claim_queries
  nothing_claimed c [] e = refl
  nothing_claimed c (q ∷ qs) e = rw (e, claim_queries) refl

  -- The claims together take at most the available compute, in each of its three parts, and strictly
  -- less than it of each part when any part was there to begin with; without that nothing is claimed.
  pub claim-within_available :
      (s : QueryHandlerState X) (available : TotalOperatorCompute)
      → let cs = (claim_operator_instances_up_to_compute_available s available).1 in
        ((any_depleated available ≡ true) × (cs ≡ []))
        ⊎ ((length cs < available.instances)
            × (claimed_memory cs < available.memory_in_mib)
            × (claimed_cpu cs < available.cpu_in_thousandths))
  unfolding claim_operator_instances_up_to_compute_available
  claim-within_available s available = elim (Bool-cases (any_depleated available)) [
    | inl e ↦ inl (e, nothing_claimed available s.queries e)
    | inr e ↦
        let v = claim_queries-IsSpent available s.queries in
        let left = some_left (claim_queries available s.queries).compute (v.depleated ∙ e) in
        inr (
          omega (arith, v.instances, left.0),
          omega (arith, v.memory_in_mib, left.1),
          omega (arith, v.cpu_in_thousandths, left.2),
        )
  ]
