-- ===== src/Planner/Logical/Edges.antt =====
-- src/planner/logical_planner.rs: the two edge maps of a logical plan, and what connections do to them.
use chapterhouse_qe.Common.{
  ℕ, ◌≡◌, ◌↔◌, ◌⊎◌, refl, ap, ◌∙◌, Bool, true, false, Option, none, some, List, [], ◌∷◌, ◌++◌,
  arith, inl, inr, ◌==◌, ◌&&◌, ◌||◌, if◌then◌else◌, any, any-append, Bool-cases, Option-cases,
}
use chapterhouse_qe.Common.Map
use chapterhouse_qe.External.{External}
use chapterhouse_qe.Planner.Logical.{
  Stage, LogicalPlan, add_to_edges, add_to_outbound_edges, add_to_inbound_edges, connect,
  connect_to_all, connect_all, connect_stages, stage_idxs,
}
use chapterhouse_qe.Planner.Logical.Stages.{InStage, stage_idxs-InStage}

abbrev pub member : ℕ → Option (List ℕ) → Bool
member v none = false
member v (some vs) = any (λ val. val == v) vs

-- Whether the value stands in the list of the key.
abbrev pub has_edge : List (ℕ × List ℕ) → ℕ → ℕ → Bool
has_edge edges k v = member v (Map.get k edges)

-- The values of a key, with one more.
abbrev extend : ℕ → Option (List ℕ) → List ℕ
extend v none = v ∷ []
extend v (some vs) = if any (λ val. val == v) vs then vs else vs ++ (v ∷ [])

get-add_to_edges :
    (k v a : ℕ) (edges : List (ℕ × List ℕ))
    → Map.get a (add_to_edges k v edges)
      ≡ (if k == a then some (extend v (Map.get k edges)) else Map.get a edges)
unfolding add_to_edges
get-add_to_edges k v a edges = elim (Option-cases (Map.get k edges)) [
  | inl e ↦ rw (e, add_to_edges) (Map.get-insert k a (v ∷ []) edges)
  | inr (vs, e) ↦ elim (Bool-cases (any (λ val. val == v) vs)) [
    | inl old ↦ rw (e, old, add_to_edges) (ground arith)
    | inr new ↦ rw (e, new, add_to_edges) (Map.get-insert k a (vs ++ (v ∷ [])) edges)
  ]
]

member-extend :
    (v b : ℕ) (vs : Option (List ℕ)) → member b (some (extend v vs)) ≡ (member b vs || v == b)
member-extend v b none = ground arith
member-extend v b (some vs) = elim (Bool-cases (any (λ val. val == v) vs)) [
  | inl old ↦ rw old (ground (arith, ap (λ (t : ℕ). any (λ val. val == t) vs)))
  | inr new ↦ rw new (ground (arith, any-append (λ (val : ℕ). val == b) vs (v ∷ [])))
]

pub has_edge-add_to_edges :
    (k v a b : ℕ) (edges : List (ℕ × List ℕ))
    → has_edge (add_to_edges k v edges) a b ≡ (has_edge edges a b || (k == a && v == b))
has_edge-add_to_edges k v a b edges = elim (Bool-cases (k == a)) [
  | inl e ↦
      rw (get-add_to_edges, e)
        (member-extend v b (Map.get k edges)
          ∙ ap (λ t. member b (Map.get t edges) || v == b) (ground arith))
  | inr e ↦ rw (get-add_to_edges, e) (ground arith)
]

-- No key has an empty list.
abbrev pub is_empty : Option (List ℕ) → Bool
is_empty none = false
is_empty (some []) = true
is_empty (some (v ∷ vs)) = false

extend_nonempty : (v : ℕ) (vs : Option (List ℕ)) → is_empty (some (extend v vs)) ≡ false
extend_nonempty v none = refl
extend_nonempty v (some []) = refl
extend_nonempty v (some (w ∷ vs)) = ground arith

add_to_edges_nonempty :
    (k v a : ℕ) (edges : List (ℕ × List ℕ))
    → is_empty (Map.get a edges) ≡ false
    → is_empty (Map.get a (add_to_edges k v edges)) ≡ false
add_to_edges_nonempty k v a edges h = elim (Bool-cases (k == a)) [
  | inl e ↦ rw (get-add_to_edges, e) (extend_nonempty v (Map.get k edges))
  | inr e ↦ rw (get-add_to_edges, e) h
]

-- The plan's two maps are converses, and name no key without a value.
pub record IsMirrored {X : External} (p : LogicalPlan X) : Type 0 where
  pub converse : (a b : ℕ) → has_edge p.outbound_edges a b ≡ has_edge p.inbound_edges b a
  pub inbound_nonempty : (a : ℕ) → is_empty (Map.get a p.inbound_edges) ≡ false

-- The edge from a member of one list to a member of the other.
abbrev pub between : List ℕ → List ℕ → ℕ → ℕ → Bool
between froms tos a b = any (λ x. x == a) froms && any (λ x. x == b) tos

module _ {X : External} where
  connect_edges :
      (p : LogicalPlan X) (f t a b : ℕ)
      → has_edge (connect p f t).outbound_edges a b
        ≡ (has_edge p.outbound_edges a b || (f == a && t == b))
  unfolding connect add_to_outbound_edges add_to_inbound_edges
  connect_edges p f t a b = has_edge-add_to_edges f t a b p.outbound_edges

  connect-IsMirrored : (p : LogicalPlan X) (f t : ℕ) → IsMirrored p → IsMirrored (connect p f t)
  unfolding connect add_to_outbound_edges add_to_inbound_edges
  connect-IsMirrored p f t v = record {
    converse = λ a b.
        rw
          (
            has_edge-add_to_edges f t a b p.outbound_edges,
            has_edge-add_to_edges t f b a p.inbound_edges,
          )
          (ground (arith, v.converse a b));
    inbound_nonempty = λ a. add_to_edges_nonempty t f a p.inbound_edges (v.inbound_nonempty a);
  }

  connect_to_all-IsMirrored :
      (p : LogicalPlan X) (f : ℕ) (tos : List ℕ)
      → IsMirrored p
      → IsMirrored (connect_to_all p f tos)
  unfolding connect_to_all
  connect_to_all-IsMirrored p f [] v = v
  connect_to_all-IsMirrored p f (t ∷ tos) v =
      connect_to_all-IsMirrored (connect p f t) f tos (connect-IsMirrored p f t v)

  connect_all-IsMirrored :
      (p : LogicalPlan X) (froms tos : List ℕ) → IsMirrored p → IsMirrored (connect_all p froms tos)
  unfolding connect_all
  connect_all-IsMirrored p [] tos v = v
  connect_all-IsMirrored p (f ∷ froms) tos v =
      connect_all-IsMirrored (connect_to_all p f tos) froms tos
        (connect_to_all-IsMirrored p f tos v)

  -- Connecting two stages keeps a plan whose inbound edges are its outbound edges reversed, and in which
  -- no node has an empty list of inbound nodes, such a plan.
  pub connect_stages-IsMirrored :
      (p : LogicalPlan X) (s t : Stage) → IsMirrored p → IsMirrored (connect_stages p s t)
  unfolding connect_stages
  connect_stages-IsMirrored p s t v =
      connect_all-IsMirrored p (stage_idxs s 0 p.nodes) (stage_idxs t 0 p.nodes) v

  connect_to_all_edges :
      (p : LogicalPlan X) (f : ℕ) (tos : List ℕ) (a b : ℕ)
      → has_edge (connect_to_all p f tos).outbound_edges a b
        ≡ (has_edge p.outbound_edges a b || between (f ∷ []) tos a b)
  unfolding connect_to_all
  connect_to_all_edges p f [] a b = ground arith
  connect_to_all_edges p f (t ∷ tos) a b =
      connect_to_all_edges (connect p f t) f tos a b
      ∙ ap (λ e. e || between (f ∷ []) tos a b) (connect_edges p f t a b)
      ∙ ground arith

  connect_all_edges :
      (p : LogicalPlan X) (froms tos : List ℕ) (a b : ℕ)
      → has_edge (connect_all p froms tos).outbound_edges a b
        ≡ (has_edge p.outbound_edges a b || between froms tos a b)
  unfolding connect_all
  connect_all_edges p [] tos a b = ground arith
  connect_all_edges p (f ∷ froms) tos a b =
      connect_all_edges (connect_to_all p f tos) froms tos a b
      ∙ ap (λ e. e || between froms tos a b) (connect_to_all_edges p f tos a b)
      ∙ ground arith

  pub connect_stages_idxs :
      (p : LogicalPlan X) (s t : Stage) (a b : ℕ)
      → has_edge (connect_stages p s t).outbound_edges a b ≡ (
          has_edge p.outbound_edges a b
          || between (stage_idxs s 0 p.nodes) (stage_idxs t 0 p.nodes) a b)
  unfolding connect_stages
  connect_stages_idxs p s t a b =
      connect_all_edges p (stage_idxs s 0 p.nodes) (stage_idxs t 0 p.nodes) a b

  -- After two stages of any plan are connected there is an edge exactly where there was one, and from
  -- every node of the first stage to every node of the second, each node by its place in the plan.
  pub connect_stages_edges :
      (p : LogicalPlan X) (s t : Stage) (a b : ℕ)
      → (has_edge (connect_stages p s t).outbound_edges a b ≡ true)
        ↔ ((has_edge p.outbound_edges a b ≡ true) ⊎ (InStage s a p.nodes × InStage t b p.nodes))
  connect_stages_edges p s t a b =
      let new = connect_stages_idxs p s t a b in
      let from = stage_idxs-InStage s a p.nodes in
      let to = stage_idxs-InStage t b p.nodes in
      (
        λ h. elim (Bool-cases (has_edge p.outbound_edges a b)) [
          | inl e ↦ inl e
          | inr e ↦ inr (from.0 (ground (arith, e, h, new)), to.0 (ground (arith, e, h, new)))
        ],
        λ h. elim h [
          | inl e ↦ new ∙ ground (arith, e)
          | inr x ↦ let k = from.1 (x.0) in let l = to.1 (x.1) in new ∙ ground (arith, k, l)
        ],
      )

  connect_to_all_nodes :
      (p : LogicalPlan X) (f : ℕ) (tos : List ℕ) → (connect_to_all p f tos).nodes ≡ p.nodes
  unfolding connect_to_all connect add_to_outbound_edges add_to_inbound_edges
  connect_to_all_nodes p f [] = refl
  connect_to_all_nodes p f (t ∷ tos) = connect_to_all_nodes (connect p f t) f tos

  connect_all_nodes :
      (p : LogicalPlan X) (froms tos : List ℕ) → (connect_all p froms tos).nodes ≡ p.nodes
  unfolding connect_all
  connect_all_nodes p [] tos = refl
  connect_all_nodes p (f ∷ froms) tos =
      connect_all_nodes (connect_to_all p f tos) froms tos ∙ connect_to_all_nodes p f tos

  pub connect_stages_nodes :
      (p : LogicalPlan X) (s t : Stage) → (connect_stages p s t).nodes ≡ p.nodes
  unfolding connect_stages
  connect_stages_nodes p s t = connect_all_nodes p (stage_idxs s 0 p.nodes) (stage_idxs t 0 p.nodes)
