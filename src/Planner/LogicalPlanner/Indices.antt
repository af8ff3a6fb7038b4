-- ===== src/Planner/LogicalPlanner/Indices.antt =====
-- The nodes that the planner adds, and the indices that a stage has among them.
use chapterhouse_qe.Common.{
  ℕ, suc, ◌+◌, ◌≡◌, refl, sym, ap, ◌∙◌, Bool, true, false, Option, none, some, List, [], ◌∷◌, ◌++◌,
  arith, inl, inr, ◌==◌, ltb, leb, ◌&&◌, ◌||◌, any, any-append, Bool-cases, length, length-append,
  append-nil, append_assoc,
}
use chapterhouse_qe.External.{External}
use chapterhouse_qe.Planner.Logical.{
  Stage, table_source, filter_stage, materialize_stage, LogicalPlanNodeType, LogicalPlanNode,
  LogicalPlan, stage_eq, stage_idxs, add_node,
}
use chapterhouse_qe.Planner.LogicalPlanner.{add_nodes}

module _ {X : External} where
  abbrev pub a_node : ℕ → LogicalPlanNodeType X → Stage → LogicalPlanNode X
  a_node i node stage = record { id = i; node = node; stage = stage }

  -- The nodes of one stage, numbered from `i`.
  abbrev pub numbered : ℕ → Stage → List (LogicalPlanNodeType X) → List (LogicalPlanNode X)
  numbered i stage [] = []
  numbered i stage (node ∷ nodes) = a_node i node stage ∷ numbered (i + 1) stage nodes

  pub length-numbered :
      (i : ℕ) (stage : Stage) (nodes : List (LogicalPlanNodeType X))
      → length (numbered i stage nodes) ≡ length nodes
  length-numbered i stage [] = refl
  length-numbered i stage (node ∷ nodes) = ap suc (length-numbered (i + 1) stage nodes)

  -- The plan with these nodes and no edges.
  abbrev pub with_nodes : List (LogicalPlanNode X) → LogicalPlan X
  with_nodes nodes = record { nodes = nodes; outbound_edges = []; inbound_edges = [] }

  pub add_node_nodes :
      (xs : List (LogicalPlanNode X)) (node : LogicalPlanNodeType X) (stage : Stage)
      → (add_node (with_nodes xs) node stage).0
        ≡ with_nodes (xs ++ (a_node (length xs) node stage ∷ []))
  unfolding add_node
  add_node_nodes xs node stage = refl

  pub add_nodes_nodes :
      (xs : List (LogicalPlanNode X)) (stage : Stage) (nodes : List (LogicalPlanNodeType X))
      → add_nodes (with_nodes xs) stage nodes ≡ with_nodes (xs ++ numbered (length xs) stage nodes)
  unfolding add_nodes add_node
  add_nodes_nodes xs stage [] = ap with_nodes (sym (append-nil xs))
  add_nodes_nodes xs stage (node ∷ nodes) =
      add_nodes_nodes (xs ++ (a_node (length xs) node stage ∷ [])) stage nodes
      ∙ ap with_nodes (
          ap (λ i. (xs ++ (a_node (length xs) node stage ∷ [])) ++ numbered i stage nodes)
            (length-append xs (a_node (length xs) node stage ∷ []))
          ∙ append_assoc xs (a_node (length xs) node stage ∷ [])
              (numbered (length xs + 1) stage nodes))

  stage_idxs-append :
      (stage : Stage) (i : ℕ) (xs ys : List (LogicalPlanNode X))
      → stage_idxs stage i (xs ++ ys) ≡ stage_idxs stage i xs ++ stage_idxs stage (i + length xs) ys
  unfolding stage_idxs
  stage_idxs-append stage i [] ys = ap (λ j. stage_idxs stage j ys) (omega arith)
  stage_idxs-append stage i (x ∷ xs) ys =
      let e : i + 1 + length xs ≡ i + length (x ∷ xs) = omega arith in
      let ih =
        stage_idxs-append stage (i + 1) xs ys
        ∙ ap (λ j. stage_idxs stage (i + 1) xs ++ stage_idxs stage j ys) e in
      elim (Bool-cases (stage_eq x.stage stage)) [
        | inl own ↦ rw own (ap (◌∷◌ i) ih)
        | inr other ↦ rw other ih
      ]

  -- The indices of a stage are those of its own nodes.
  any-stage_idxs :
      (stage own : Stage) (i a : ℕ) (nodes : List (LogicalPlanNodeType X))
      → any (λ x. x == a) (stage_idxs stage i (numbered i own nodes))
        ≡ (stage_eq own stage && (leb i a && ltb a (i + length nodes)))
  unfolding stage_idxs
  any-stage_idxs stage own i a [] = ground arith
  any-stage_idxs stage own i a (node ∷ nodes) = elim (Bool-cases (stage_eq own stage)) [
    | inl e ↦ rw e (ground (arith, e, any-stage_idxs stage own (i + 1) a nodes))
    | inr e ↦ rw e (any-stage_idxs stage own (i + 1) a nodes ∙ rw e)
  ]

-- The three stages of a planner whose next stage id is `i`.
abbrev pub sources_of : ℕ → Stage
sources_of i = record { id = i; typ = table_source; is_root = false }

abbrev pub filter_of : ℕ → Stage
filter_of i = record { id = i + 1; typ = filter_stage; is_root = false }

abbrev pub materialize_of : ℕ → Stage
materialize_of i = record { id = i + 2; typ = materialize_stage; is_root = true }

module _ {X : External} where
  -- The nodes of a plan: the tables, the filter if there is one, and the root.
  abbrev pub plan_nodes :
      ℕ
      → List (LogicalPlanNodeType X)
      → Option (LogicalPlanNodeType X)
      → LogicalPlanNodeType X
      → List (LogicalPlanNode X)
  plan_nodes i tables none m =
      numbered 0 (sources_of i) tables ++ (a_node (length tables) m (materialize_of i) ∷ [])
  plan_nodes i tables (some f) m =
      (numbered 0 (sources_of i) tables ++ (a_node (length tables) f (filter_of i) ∷ []))
      ++ (a_node (length tables + 1) m (materialize_of i) ∷ [])

  -- Its edges: every table to the filter and the filter to the root, or every table to the root.
  abbrev pub plan_edge : ℕ → Option (LogicalPlanNodeType X) → ℕ → ℕ → Bool
  plan_edge n none a b = ltb a n && b == n
  plan_edge n (some f) a b = (ltb a n && b == n) || (a == n && b == n + 1)

  -- One more node at the end.
  any-stage_idxs-snoc :
      (stage own : Stage) (xs : List (LogicalPlanNode X)) (m : LogicalPlanNodeType X) (k a : ℕ)
      → length xs ≡ k
      → any (λ x. x == a) (stage_idxs stage 0 (xs ++ (a_node k m own ∷ [])))
        ≡ (any (λ x. x == a) (stage_idxs stage 0 xs) || (stage_eq own stage && a == k))
  any-stage_idxs-snoc stage own xs m k a h =
      ap (any (λ x. x == a)) (stage_idxs-append stage 0 xs (a_node k m own ∷ []))
      ∙ any-append (λ x. x == a) (stage_idxs stage 0 xs)
          (stage_idxs stage (0 + length xs) (a_node k m own ∷ []))
      ∙ ap
          (λ j.
            any (λ x. x == a) (stage_idxs stage 0 xs)
            || any (λ x. x == a) (stage_idxs stage j (a_node k m own ∷ [])))
          (omega arith)
      ∙ ap (λ e. any (λ x. x == a) (stage_idxs stage 0 xs) || e) (one stage own m k a)
    where
      one :
          (stage own : Stage) (m : LogicalPlanNodeType X) (k a : ℕ)
          → any (λ x. x == a) (stage_idxs stage k (a_node k m own ∷ []))
            ≡ (stage_eq own stage && a == k)
      one stage own m k a = unfold stage_idxs in ground arith

  -- Which indices a stage has in the nodes of a plan.
  pub any-stage_idxs-plan_nodes :
      (stage : Stage) (i : ℕ) (ts : List (LogicalPlanNodeType X))
      (f : Option (LogicalPlanNodeType X)) (m : LogicalPlanNodeType X) (a : ℕ)
      → any (λ x. x == a) (stage_idxs stage 0 (plan_nodes i ts f m)) ≡ (elim f [
        | none ↦
            (stage_eq (sources_of i) stage && (leb 0 a && ltb a (0 + length ts)))
            || (stage_eq (materialize_of i) stage && a == length ts)
        | some _ ↦
            ((stage_eq (sources_of i) stage && (leb 0 a && ltb a (0 + length ts)))
              || (stage_eq (filter_of i) stage && a == length ts))
            || (stage_eq (materialize_of i) stage && a == length ts + 1)
      ])
  any-stage_idxs-plan_nodes stage i ts none m a =
      any-stage_idxs-snoc stage (materialize_of i) (numbered 0 (sources_of i) ts) m (length ts) a
        (length-numbered 0 (sources_of i) ts)
      ∙ ap (λ e. e || (stage_eq (materialize_of i) stage && a == length ts))
          (any-stage_idxs stage (sources_of i) 0 a ts)
  any-stage_idxs-plan_nodes stage i ts (some f) m a =
      any-stage_idxs-snoc stage (materialize_of i)
        (numbered 0 (sources_of i) ts ++ (a_node (length ts) f (filter_of i) ∷ [])) m
        (length ts + 1) a
        (length-append (numbered 0 (sources_of i) ts) _
          ∙ ap (λ n. n + 1) (length-numbered 0 (sources_of i) ts))
      ∙ ap (λ e. e || (stage_eq (materialize_of i) stage && a == length ts + 1))
          (any-stage_idxs-snoc stage (filter_of i) (numbered 0 (sources_of i) ts) f (length ts) a
              (length-numbered 0 (sources_of i) ts)
            ∙ ap (λ e. e || (stage_eq (filter_of i) stage && a == length ts))
                (any-stage_idxs stage (sources_of i) 0 a ts))
