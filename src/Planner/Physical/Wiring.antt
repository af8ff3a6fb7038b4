-- ===== src/Planner/Physical/Wiring.antt =====
-- The operators of a physical plan name each other consistently.
use chapterhouse_qe.Common.{
  ℕ, ◌≡◌, ◌≢◌, refl, sym, ap, ◌∙◌, Bool, true, false, Option, none, some, List, [], ◌∷◌, arith, inl,
  inr, ◌==◌, any, Among, All-Among, Text, text_eq, text_eq_refl, text_eq→eq, Bool-cases, ok,
}
use chapterhouse_qe.External.{External}
use chapterhouse_qe.Planner.Logical.{LogicalPlan, get_inbound_nodes, get_outbound_nodes}
use chapterhouse_qe.Planner.Logical.Edges.{member, IsMirrored}
use chapterhouse_qe.Planner.Physical.Operators.{
  Operator, OperatorType, Pipeline, producer, exchange, new_pipeline,
}
use chapterhouse_qe.Planner.Physical.Planner.{
  new_operator_id, or_empty, producer_name, exchange_name, build_loop,
}
use chapterhouse_qe.Planner.Physical.Ids.{new_operator_id_injective}
use chapterhouse_qe.Planner.Physical.Made.{names, IsMadeAs, IsMade, build_loop-IsMade}

any-names :
    (m : ℕ) (kind : Text) (ids : List ℕ)
    → any (text_eq (new_operator_id m kind)) (names ids kind) ≡ any (λ x. x == m) ids
any-names m kind [] = refl
any-names m kind (x ∷ ids) = elim (Bool-cases (x == m)) [
  | inl e ↦ let same : x ≡ m = ground (arith, e) in rw (e, same, text_eq_refl)
  | inr e ↦ elim (Bool-cases (text_eq (new_operator_id m kind) (new_operator_id x kind))) [
    | inl same ↦
        absurd
          (ground (arith, e, (new_operator_id_injective m x kind kind (text_eq→eq _ _ same)).0))
    | inr other ↦ rw (e, other) (any-names m kind ids)
  ]
]

kinds_differ : (m n : ℕ) → new_operator_id m producer_name ≢ new_operator_id n exchange_name
kinds_differ m n e =
    ground (arith, ap head (new_operator_id_injective m n producer_name exchange_name e).1)
  where
    head : Text → ℕ
    head [] = 0
    head (c ∷ cs) = c

any-or_empty : (a : ℕ) (ids : Option (List ℕ)) → any (λ x. x == a) (or_empty ids) ≡ member a ids
any-or_empty a none = refl
any-or_empty a (some ids) = refl

no_producer_named :
    (n : ℕ) (ids : List ℕ)
    → any (text_eq (new_operator_id n producer_name)) (names ids exchange_name) ≡ false
no_producer_named n [] = refl
no_producer_named n (x ∷ ids) =
    elim (Bool-cases
      (text_eq (new_operator_id n producer_name) (new_operator_id x exchange_name))) [
        | inl e ↦ absurd (kinds_differ n x (text_eq→eq _ _ e))
        | inr e ↦ rw (e) (no_producer_named n ids)
      ]

module _ {X : External} where
  -- Whether a producer reads from an operator, and whether an exchange serves one.
  abbrev pub reads : Text → OperatorType X → Bool
  reads id (producer task out ins) = any (text_eq id) ins
  reads id (exchange task outs ins) = false

  abbrev pub serves : Text → OperatorType X → Bool
  serves id (producer task out ins) = false
  serves id (exchange task outs ins) = any (text_eq id) outs

  -- Whether a producer writes to an operator; the exchange that takes records from this one alone.
  abbrev pub writes_to : Text → OperatorType X → Bool
  writes_to id (producer task out ins) = text_eq out id
  writes_to id (exchange task outs ins) = false

  abbrev pub TakesOnlyFrom : Text → OperatorType X → Type 0
  TakesOnlyFrom id (producer task out ins) = ⊥
  TakesOnlyFrom id (exchange task outs ins) = ins ≡ id ∷ []

  made_reads :
      (plan : LogicalPlan X) (aid bid : Text) (m n : ℕ) (at bt : OperatorType X)
      → IsMirrored plan
      → IsMadeAs plan aid m at
      → IsMadeAs plan bid n bt
      → reads bid at ≡ true
      → serves aid bt ≡ true
  unfolding get_inbound_nodes get_outbound_nodes
  made_reads plan aid bid m n (exchange _ _ _) bt v a b r = absurd (cc)
  made_reads plan aid bid m n (producer t out ins) bt v (ea, _, inl none_in) b r =
      absurd (ground (arith, ap (any (text_eq bid)) none_in))
  made_reads plan aid bid m n (producer t out ins) (producer u out' ins') v (ea, _, inr e)
        (eb, _, _) r =
      absurd (
        ground (
          arith,
          no_producer_named n (or_empty (get_inbound_nodes plan m)),
          ap (any (text_eq bid)) e
              ∙ ap
                  (λ t. any (text_eq t) (names (or_empty (get_inbound_nodes plan m)) exchange_name))
                  eb,
          r,
        ))
  made_reads plan aid bid m n (producer t out ins) (exchange u outs ins') v (ea, _, inr e)
        (eb, e', _) r =
      ap (λ t. any (text_eq t) outs) ea
      ∙ ap (any (text_eq (new_operator_id m producer_name))) e'
      ∙ any-names m producer_name (or_empty (get_outbound_nodes plan n))
      ∙ any-or_empty m (get_outbound_nodes plan n)
      ∙ v.converse n m
      ∙ sym (any-or_empty n (get_inbound_nodes plan m))
      ∙ sym (any-names n exchange_name (or_empty (get_inbound_nodes plan m)))
      ∙ ap (λ t. any (text_eq t) (names (or_empty (get_inbound_nodes plan m)) exchange_name))
          (sym eb)
      ∙ ap (any (text_eq bid)) (sym e)
      ∙ r

  made_writes :
      (plan : LogicalPlan X) (aid bid : Text) (m n : ℕ) (at bt : OperatorType X)
      → IsMadeAs plan aid m at
      → IsMadeAs plan bid n bt
      → writes_to bid at ≡ true
      → TakesOnlyFrom aid bt
  made_writes plan aid bid m n (exchange _ _ _) bt a b r = absurd (cc)
  made_writes plan aid bid m n (producer t out ins) (producer u out' ins') (ea, eo, _) (eb, _, _)
        r =
      absurd (kinds_differ n m (sym eb ∙ sym (text_eq→eq out bid r) ∙ eo))
  made_writes plan aid bid m n (producer t out ins) (exchange u outs ins') (ea, eo, _) (eb, _, ei)
        r =
      let same =
        new_operator_id_injective m n exchange_name exchange_name
          (sym eo ∙ text_eq→eq out bid r ∙ eb) in
      ei ∙ ap (λ k. new_operator_id k producer_name ∷ []) (sym (same.0)) ∙ ap (λ t. t ∷ []) (sym ea)

  -- In a pipeline that the planner returns for a plan whose two edge maps are converses, whatever the
  -- fuel, an exchange b that the producer of an operator a reads from lists a among the producers that
  -- it serves.
  pub build_loop-serves_readers :
      (fuel : ℕ) (plan : LogicalPlan X) (most : ℕ) (stack : List ℕ) (name : Text) (p : Pipeline X)
      (a b : Operator X)
      → IsMirrored plan
      → build_loop fuel plan most 0 stack (new_pipeline name) ≡ some (ok p)
      → Among a p.operators
      → Among b p.operators
      → reads b.id a.operator_type ≡ true
      → serves a.id b.operator_type ≡ true
  build_loop-serves_readers fuel plan most stack name p a b v e in_a in_b =
      let made = build_loop-IsMade fuel plan most stack name p e in
      made_reads plan a.id b.id a.plan_id b.plan_id a.operator_type b.operator_type v
        (All-Among (IsMade plan) a p.operators made in_a)
        (All-Among (IsMade plan) b p.operators made in_b)

  -- In a pipeline that the planner returns, whatever the plan and the fuel, an operator b that the
  -- producer of an operator a writes to is an exchange that takes records from a and from no other.
  pub build_loop-takes_from_writer :
      (fuel : ℕ) (plan : LogicalPlan X) (most : ℕ) (stack : List ℕ) (name : Text) (p : Pipeline X)
      (a b : Operator X)
      → build_loop fuel plan most 0 stack (new_pipeline name) ≡ some (ok p)
      → Among a p.operators
      → Among b p.operators
      → writes_to b.id a.operator_type ≡ true
      → TakesOnlyFrom a.id b.operator_type
  build_loop-takes_from_writer fuel plan most stack name p a b e in_a in_b =
      let made = build_loop-IsMade fuel plan most stack name p e in
      made_writes plan a.id b.id a.plan_id b.plan_id a.operator_type b.operator_type
        (All-Among (IsMade plan) a p.operators made in_a)
        (All-Among (IsMade plan) b p.operators made in_b)
