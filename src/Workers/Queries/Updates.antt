-- ===== src/Workers/Queries/Updates.antt =====
-- What setting a status changes in the state of the queries, and what it leaves.
use chapterhouse_qe.Common.{
  ℕ, ◌≡◌, ◌≢◌, refl, sym, ap, ◌∙◌, subst, Bool, true, none, some, List, [], ◌∷◌, ◌==◌, any, find,
  find-any, ok, err, arith, Bool-cases, Option-cases, inl, inr, ◌⊎◌,
}
use chapterhouse_qe.External.{External}
use chapterhouse_qe.Workers.Queries.{
  Query, QueryHandlerState, operator_instance_not_found, query_not_found, OperatorInstance, Status,
  update_first, holds, find_query, find_operator_instance, get_operator_instance,
  update_operator_instance_status, or_not_found,
}

pub find_satisfies :
    {A : Type 0} (p : A → Bool) (xs : List A) (x : A) → find p xs ≡ some x → p x ≡ true
find_satisfies p [] x e = absurd (cc)
find_satisfies p (y ∷ xs) x e = elim (Bool-cases (p y)) [
  | inl at ↦ let same : y ≡ x = ground (arith, at, e) in sym (ap p same) ∙ at
  | inr at ↦ find_satisfies p xs x (ground (arith, at, e))
]

any_found :
    {A : Type 0} (p r : A → Bool) (xs : List A) (x : A)
    → find p xs ≡ some x
    → r x ≡ true
    → any r xs ≡ true
any_found p r [] x e h = absurd (cc)
any_found p r (y ∷ xs) x e h = elim (Bool-cases (p y)) [
  | inl at ↦ let same : y ≡ x = ground (arith, at, e) in rw (ap r same ∙ h) refl
  | inr at ↦ ground (arith, any_found p r xs x (ground (arith, at, e)) h)
]

module _ {A : Type 0} (p q : A → Bool) (f : A → A) where
  pub find-update_first :
      (xs : List A) (x : A)
      → ((y : A) → q y ≡ true → p y ≡ true)
      → find p xs ≡ some x
      → q x ≡ true
      → p (f x) ≡ true
      → find p (update_first q f xs) ≡ some (f x)
  find-update_first [] x sub e h k = absurd (cc)
  find-update_first (y ∷ xs) x sub e h k = elim (Bool-cases (q y)) [
    | inl t ↦
        let at : p y ≡ true = sub y t in
        let same : y ≡ x = ground (arith, at, e) in
        rw (t, ap (λ z. p (f z)) same ∙ k) (ap (λ z. some (f z)) same)
    | inr t ↦ elim (Bool-cases (p y)) [
      | inl at ↦
          let same : y ≡ x = ground (arith, at, e) in
          absurd (ground (arith, t, sym (ap q same) ∙ t, h))
      | inr at ↦ rw (t, at) (find-update_first xs x sub (ground (arith, at, e)) h k)
    ]
  ]

  -- A search finds what it found, or the image of it.
  pub find-update_first_cases :
      (xs : List A)
      → ((y : A) → p (f y) ≡ p y)
      → (find p (update_first q f xs) ≡ find p xs)
        ⊎ ((x : A) × (find p xs ≡ some x)
            × (find p (update_first q f xs) ≡ some (f x))
            × (q x ≡ true))
  find-update_first_cases [] k = inl refl
  find-update_first_cases (y ∷ xs) k = elim (Bool-cases (q y)) [
    | inl t ↦ elim (Bool-cases (p y)) [
      | inl at ↦ inr (y, rw (at) refl, rw (t, k y, at) refl, t)
      | inr at ↦ inl (rw (t, k y, at) refl)
    ]
    | inr t ↦ elim (Bool-cases (p y)) [
      | inl at ↦ inl (rw (t, at) refl)
      | inr at ↦ rw (t, at) (find-update_first_cases xs k)
    ]
  ]

abbrev set_in : ℕ → Status → List OperatorInstance → List OperatorInstance
set_in id status ops =
    update_first (λ op_in. op_in.id == id) (λ op_in. record op_in { status = status }) ops

set_in_other :
    (id : ℕ) (status : Status) (other : ℕ) (ops : List OperatorInstance)
    → other ≢ id
    → find (λ item. item.id == other) (set_in id status ops) ≡ find (λ item. item.id == other) ops
set_in_other id status other ops apart =
    elim (find-update_first_cases (λ item. item.id == other) (λ item. item.id == id)
      (λ o. record o { status = status }) ops (λ y. refl)) [
        | inl e ↦ e
        | inr (x, ex, _, at) ↦
            let is_other = find_satisfies (λ item. item.id == other) ops x ex in
            absurd (apart (ground (arith, is_other, at)))
      ]

module _ {X : External} where
  abbrev set_instance : ℕ → Status → Query X → Query X
  set_instance id status q = record q { operator_instances = set_in id status q.operator_instances }

  get_lem :
      (s : QueryHandlerState X) (query_id id : ℕ) (q : Query X)
      → find (λ item. item.id == query_id) s.queries ≡ some q
      → get_operator_instance s query_id id
        ≡ or_not_found
            (operator_instance_not_found id)
            (find (λ item. item.id == id) q.operator_instances)
  unfolding get_operator_instance find_query find_operator_instance
  get_lem s query_id id q e = rw (e, get_operator_instance) refl

  get_missing :
      (s : QueryHandlerState X) (query_id id : ℕ)
      → find (λ item. item.id == query_id) s.queries ≡ none
      → get_operator_instance s query_id id ≡ err (query_not_found query_id)
  unfolding get_operator_instance find_query
  get_missing s query_id id e = rw (e, get_operator_instance) refl

  -- What a successful lookup found.
  get_found :
      (s : QueryHandlerState X) (query_id id : ℕ) (op_in : OperatorInstance)
      → get_operator_instance s query_id id ≡ ok op_in
      → (q : Query X) × (find (λ item. item.id == query_id) s.queries ≡ some q)
        × (find (λ item. item.id == id) q.operator_instances ≡ some op_in)
  get_found s query_id id op_in h =
      elim (Option-cases (find (λ item. item.id == query_id) s.queries)) [
        | inl e ↦ absurd (ground (arith, sym (get_missing s query_id id e) ∙ h))
        | inr (q, e) ↦ elim (Option-cases (find (λ item. item.id == id) q.operator_instances)) [
          | inl g ↦ absurd (
              ground (
                arith,
                sym (
                      get_lem s query_id id q e
                      ∙ ap (or_not_found (operator_instance_not_found id)) g)
                    ∙ h,
              ))
          | inr (o, g) ↦
              let same : o ≡ op_in = ground (
                arith,
                sym (
                      get_lem s query_id id q e
                      ∙ ap (or_not_found (operator_instance_not_found id)) g)
                    ∙ h,
              ) in
              (q, e, g ∙ ap some same)
        ]
      ]

  updated : QueryHandlerState X → ℕ → ℕ → Status → QueryHandlerState X
  updated s query_id id status = record {
    queries = update_first (holds query_id id) (set_instance id status) s.queries;
  }

  -- An instance that a lookup finds can be updated, and then the lookup finds it with the new status
  -- and nothing else of it changed.
  pub update_operator_instance_status-get :
      (s : QueryHandlerState X) (query_id id : ℕ) (status : Status) (op_in : OperatorInstance)
      → get_operator_instance s query_id id ≡ ok op_in
      → (s' : QueryHandlerState X) × (update_operator_instance_status s query_id id status ≡ ok s')
        × (get_operator_instance s' query_id id ≡ ok (record op_in { status = status }))
  unfolding update_operator_instance_status updated
  update_operator_instance_status-get s query_id id status op_in h =
      let (q, e, g) = get_found s query_id id op_in h in
      let at = find_satisfies (λ item. item.id == query_id) s.queries q e in
      let has = find-any (λ item. item.id == id) q.operator_instances op_in g in
      let held : holds query_id id q ≡ true = rw (at, has) refl in
      (
        updated s query_id id status,
        rw (any_found (λ item. item.id == query_id) (holds query_id id) s.queries q e held) refl,
        get_lem (updated s query_id id status) query_id id (set_instance id status q) (
              find-update_first (λ item. item.id == query_id) (holds query_id id)
                (set_instance id status) s.queries q (λ y k. ground (arith, k)) e held at)
            ∙ ap (or_not_found (operator_instance_not_found id)) (
                find-update_first (λ item. item.id == id) (λ item. item.id == id)
                  (λ o. record o { status = status }) q.operator_instances op_in (λ y k. k) g
                  (find_satisfies (λ item. item.id == id) q.operator_instances op_in g)
                  (find_satisfies (λ item. item.id == id) q.operator_instances op_in g)),
      )

  same_find :
      (s s' : QueryHandlerState X) (query_id id : ℕ)
      → find (λ item. item.id == query_id) s'.queries ≡ find (λ item. item.id == query_id) s.queries
      → get_operator_instance s' query_id id ≡ get_operator_instance s query_id id
  same_find s s' query_id id h =
      elim (Option-cases (find (λ item. item.id == query_id) s.queries)) [
        | inl e ↦ get_missing s' query_id id (h ∙ e) ∙ sym (get_missing s query_id id e)
        | inr (q, e) ↦ get_lem s' query_id id q (h ∙ e) ∙ sym (get_lem s query_id id q e)
      ]

  updated_other :
      (s : QueryHandlerState X) (query_id id : ℕ) (status : Status) (other_query other : ℕ)
      → (other_query ≢ query_id) ⊎ (other ≢ id)
      → get_operator_instance (updated s query_id id status) other_query other
        ≡ get_operator_instance s other_query other
  unfolding updated
  updated_other s query_id id status other_query other apart =
      elim (find-update_first_cases (λ item. item.id == other_query) (holds query_id id)
        (set_instance id status) s.queries (λ y. refl)) [
          | inl e ↦ same_find s (updated s query_id id status) other_query other e
          | inr (q, e, e', at) ↦
              let is_other = find_satisfies (λ item. item.id == other_query) s.queries q e in
              let same : other_query ≡ query_id = ground (arith, is_other, at) in
              get_lem (updated s query_id id status) other_query other (set_instance id status q) e'
              ∙ ap (or_not_found (operator_instance_not_found other))
                  (set_in_other id status other q.operator_instances (elsewhere apart same))
              ∙ sym (get_lem s other_query other q e)
        ]
    where
      elsewhere : (other_query ≢ query_id) ⊎ (other ≢ id) → other_query ≡ query_id → other ≢ id
      elsewhere (inl n) same = absurd (n same)
      elsewhere (inr n) same = n

  -- A successful update leaves every other instance as it was: another id, or another query.
  pub update_operator_instance_status-get_other :
      (s s' : QueryHandlerState X) (query_id id : ℕ) (status : Status) (other_query other : ℕ)
      → update_operator_instance_status s query_id id status ≡ ok s'
      → (other_query ≢ query_id) ⊎ (other ≢ id)
      → get_operator_instance s' other_query other ≡ get_operator_instance s other_query other
  unfolding update_operator_instance_status updated
  update_operator_instance_status-get_other s s' query_id id status other_query other h apart =
      elim (Bool-cases (any (holds query_id id) s.queries)) [
        | inl e ↦
            let same : updated s query_id id status ≡ s' = ground (arith, e, h) in
            subst
              (λ t.
                get_operator_instance t other_query other
                ≡ get_operator_instance s other_query other)
              same (updated_other s query_id id status other_query other apart)
        | inr e ↦ absurd (ground (arith, e, h))
      ]
