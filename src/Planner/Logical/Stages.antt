-- ===== src/Planner/Logical/Stages.antt =====
-- src/planner/logical_planner.rs: the stages of the nodes of a plan, by the places of the nodes.
use chapterhouse_qe.Common.{
  ℕ, zero, suc, ◌+◌, ◌<◌, ◌≡◌, ◌↔◌, refl, sym, ap, ◌∙◌, Bool, true, false, Option, none, some, List,
  [], ◌∷◌, arith, inl, inr, ◌==◌, ==_refl, any, Bool-cases,
}
use chapterhouse_qe.External.{External}
use chapterhouse_qe.Planner.Logical.{
  StageType, table_source, filter_stage, materialize_stage, Stage, LogicalPlanNode, stage_type_eq,
  bool_eq, stage_eq, stage_idxs,
}

stage_type_eq→eq : (t u : StageType) → stage_type_eq t u ≡ true → t ≡ u
stage_type_eq→eq table_source table_source h = refl
stage_type_eq→eq filter_stage filter_stage h = refl
stage_type_eq→eq materialize_stage materialize_stage h = refl
stage_type_eq→eq table_source filter_stage h = absurd (cc)
stage_type_eq→eq table_source materialize_stage h = absurd (cc)
stage_type_eq→eq filter_stage table_source h = absurd (cc)
stage_type_eq→eq filter_stage materialize_stage h = absurd (cc)
stage_type_eq→eq materialize_stage table_source h = absurd (cc)
stage_type_eq→eq materialize_stage filter_stage h = absurd (cc)

bool_eq→eq : (b c : Bool) → bool_eq b c ≡ true → b ≡ c
bool_eq→eq true true h = refl
bool_eq→eq true false h = absurd (cc)
bool_eq→eq false true h = absurd (cc)
bool_eq→eq false false h = refl

stage_eq→eq : (s t : Stage) → stage_eq s t ≡ true → s ≡ t
stage_eq→eq s t h =
    let id : s.id ≡ t.id = ground (arith, h) in
    let typ = stage_type_eq→eq s.typ t.typ (ground (arith, h)) in
    let root = bool_eq→eq s.is_root t.is_root (ground (arith, h)) in cc

stage_type_eq_refl : (t : StageType) → stage_type_eq t t ≡ true
stage_type_eq_refl table_source = refl
stage_type_eq_refl filter_stage = refl
stage_type_eq_refl materialize_stage = refl

bool_eq_refl : (b : Bool) → bool_eq b b ≡ true
bool_eq_refl true = refl
bool_eq_refl false = refl

stage_eq_refl : (s : Stage) → stage_eq s s ≡ true
stage_eq_refl s = rw (==_refl s.id, stage_type_eq_refl s.typ, bool_eq_refl s.is_root) refl

module _ {X : External} where
  abbrev pub node_at : ℕ → List (LogicalPlanNode X) → Option (LogicalPlanNode X)
  node_at a [] = none
  node_at zero (n ∷ nodes) = some n
  node_at (suc a) (n ∷ nodes) = node_at a nodes

  -- The node at a place is there and has the stage.
  abbrev pub InStage : Stage → ℕ → List (LogicalPlanNode X) → Type 0
  InStage s a nodes = (n : LogicalPlanNode X) × (node_at a nodes ≡ some n) × (n.stage ≡ s)

  -- The same as the code tests it.
  abbrev in_stage : Stage → ℕ → List (LogicalPlanNode X) → Bool
  in_stage s a [] = false
  in_stage s zero (n ∷ nodes) = stage_eq n.stage s
  in_stage s (suc a) (n ∷ nodes) = in_stage s a nodes

  the_node : (n m : LogicalPlanNode X) → some n ≡ some m → n ≡ m
  the_node n m e = cc

  in_stage-InStage :
      (s : Stage) (a : ℕ) (nodes : List (LogicalPlanNode X))
      → (in_stage s a nodes ≡ true) ↔ InStage s a nodes
  in_stage-InStage s a [] = (λ h. absurd (cc), λ (n, e, same). absurd (cc))
  in_stage-InStage s zero (n ∷ nodes) = (
    λ h. (n, refl, stage_eq→eq n.stage s h),
    λ (m, e, same).
        let here : n.stage ≡ s = ap (λ k. k.stage) (the_node n m e) ∙ same in
        ap (λ t. stage_eq t s) here ∙ stage_eq_refl s,
  )
  in_stage-InStage s (suc a) (n ∷ nodes) = in_stage-InStage s a nodes

  stage_idxs_below :
      (s : Stage) (k b : ℕ) (nodes : List (LogicalPlanNode X))
      → b < k
      → any (λ x. x == b) (stage_idxs s k nodes) ≡ false
  unfolding stage_idxs
  stage_idxs_below s k b [] h = refl
  stage_idxs_below s k b (n ∷ nodes) h =
      let rest = stage_idxs_below s (k + 1) b nodes (omega (arith, h)) in ground (arith, h, rest)

  stage_idxs-in_stage :
      (s : Stage) (k a : ℕ) (nodes : List (LogicalPlanNode X))
      → any (λ x. x == k + a) (stage_idxs s k nodes) ≡ in_stage s a nodes
  unfolding stage_idxs
  stage_idxs-in_stage s k a [] = refl
  stage_idxs-in_stage s k zero (n ∷ nodes) =
      let rest = stage_idxs_below s (k + 1) (k + 0) nodes (omega arith) in
      elim (Bool-cases (stage_eq n.stage s)) [
        | inl e ↦ rw e (ground (arith, rest))
        | inr e ↦ rw e (ground (arith, rest))
      ]
  stage_idxs-in_stage s k (suc a) (n ∷ nodes) =
      let rest : any (λ x. x == k + suc a) (stage_idxs s (k + 1) nodes) ≡ in_stage s a nodes =
        ap (λ t. any (λ x. x == t) (stage_idxs s (k + 1) nodes)) (omega arith)
        ∙ stage_idxs-in_stage s (k + 1) a nodes in
      elim (Bool-cases (stage_eq n.stage s)) [
        | inl e ↦ rw e (ground (arith, rest))
        | inr e ↦ rw e rest
      ]

  stage_idxs_lem :
      (s : Stage) (a : ℕ) (nodes : List (LogicalPlanNode X))
      → any (λ x. x == a) (stage_idxs s 0 nodes) ≡ in_stage s a nodes
  stage_idxs_lem s a nodes =
      let same : a ≡ 0 + a = omega arith in
      ap (λ t. any (λ x. x == t) (stage_idxs s 0 nodes)) same ∙ stage_idxs-in_stage s 0 a nodes

  -- The indices of a stage are the places of its nodes.
  pub stage_idxs-InStage :
      (s : Stage) (a : ℕ) (nodes : List (LogicalPlanNode X))
      → (any (λ x. x == a) (stage_idxs s 0 nodes) ≡ true) ↔ InStage s a nodes
  stage_idxs-InStage s a nodes =
      let same = stage_idxs_lem s a nodes in
      let there = in_stage-InStage s a nodes in (λ h. there.0 (sym same ∙ h), λ h. same ∙ there.1 h)
