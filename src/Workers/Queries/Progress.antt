-- ===== src/Workers/Queries/Progress.antt =====
-- How the status of a query goes on under the operations of the state, as a transition relation.
use chapterhouse_qe.Common.{
  ℕ, ◌≡◌, refl, sym, ap, ◌∙◌, subst, Option, none, some, List, [], ◌∷◌, ◌++◌, ◌==◌, find, find-any,
  any, Text, ok, arith, Bool-cases, Option-cases, inl, inr,
}
use chapterhouse_qe.External.{External}
use chapterhouse_qe.Workers.Compute.{TotalOperatorCompute}
use chapterhouse_qe.Workers.Queries.{
  Query, QueryHandlerState, Status, queued, sending_to_worker, running, sent_shutdown, complete,
  error, update_first, holds, add_query, update_operator_instance_status, update_query_status,
}
use chapterhouse_qe.Workers.Queries.Claims.{
  Claim, started, claim_operator_instances_up_to_compute_available,
}
use chapterhouse_qe.Workers.Queries.Claims.Settling.{
  AllSettled, all_done, closed, open_query, status_after, claim-AllSettled,
}
use chapterhouse_qe.Workers.Queries.Updates.{
  find_satisfies, find-update_first, find-update_first_cases,
}

infix 40 ◌⟶◌ ◌⟶*◌
-- What may happen to the status of an id; `none` is that of an id without a query.
pub data ◌⟶◌ : Option Status → Option Status → Type 0 where
  create : none ⟶ some queued
  start : some queued ⟶ some running
  fail : {s : Status} {text : Text} → some s ⟶ some (error text)

pub data ◌⟶*◌ : Option Status → Option Status → Type 0 where
  here : {o : Option Status} → o ⟶* o
  then : {o p q : Option Status} → o ⟶ p → p ⟶* q → o ⟶* q

pub ⟶*-trans : {o p q : Option Status} → o ⟶* p → p ⟶* q → o ⟶* q
⟶*-trans here b = b
⟶*-trans (then e a) b = then e (⟶*-trans a b)

⟶*-reflexive : {o p : Option Status} → o ≡ p → o ⟶* p
⟶*-reflexive {o} e = subst (λ t. o ⟶* t) e here

started-⟶* : (status : Status) → some status ⟶* some (started status)
started-⟶* queued = then start here
started-⟶* sending_to_worker = here
started-⟶* running = here
started-⟶* (sent_shutdown time) = here
started-⟶* complete = here
started-⟶* (error text) = here

module _ {X : External} where
  abbrev status_in : Option (Query X) → Option Status
  status_in none = none
  status_in (some q) = some q.status

  -- The status of the first query with the id.
  abbrev pub status_of : QueryHandlerState X → ℕ → Option Status
  status_of s id = status_in (find (λ item. item.id == id) s.queries)

  abbrev pub Progress : QueryHandlerState X → QueryHandlerState X → Type 0
  Progress s t = (id : ℕ) → status_of s id ⟶* status_of t id

  -- The status of an instance is no concern of the status of its query.
  pub update_operator_instance_status-status_of :
      (s t : QueryHandlerState X) (query_id op_in_id : ℕ) (status : Status)
      → update_operator_instance_status s query_id op_in_id status ≡ ok t
      → (id : ℕ) → status_of s id ≡ status_of t id
  unfolding update_operator_instance_status
  update_operator_instance_status-status_of s t query_id op_in_id status h id =
      elim (Bool-cases (any (holds query_id op_in_id) s.queries)) [
        | inr e ↦ absurd (ground (arith, e, h))
        | inl e ↦
            let same : record {
              queries =
                  update_first (holds query_id op_in_id) (set_instance op_in_id status) s.queries;
            }
                ≡ t =
              ground (arith, e, h) in
            subst (λ u. status_of s id ≡ status_of u id) same
              (elim (find-update_first_cases (λ item. item.id == id) (holds query_id op_in_id)
                (set_instance op_in_id status) s.queries (λ y. refl)) [
                  | inl e' ↦ ap status_in (sym e')
                  | inr (q, was, is, _) ↦ ap status_in was ∙ sym (ap status_in is)
                ])
      ]
    where
      set_instance : ℕ → Status → Query X → Query X
      set_instance op_in_id status q = record q {
        operator_instances =
            update_first (λ op_in. op_in.id == op_in_id) (λ op_in. record op_in { status = status })
              q.operator_instances;
      }

  pub update_operator_instance_status-Progress :
      (s t : QueryHandlerState X) (query_id op_in_id : ℕ) (status : Status)
      → update_operator_instance_status s query_id op_in_id status ≡ ok t
      → Progress s t
  update_operator_instance_status-Progress s t query_id op_in_id status h id =
      ⟶*-reflexive (update_operator_instance_status-status_of s t query_id op_in_id status h id)

  abbrev set_query : Status → Query X → Query X
  set_query status q = record q { status = status }

  -- Setting the status of a query is a transition if it is one from the status that it has.
  pub update_query_status-Progress :
      (s t : QueryHandlerState X) (query_id : ℕ) (status : Status)
      → ((q : Query X)
          → find (λ item. item.id == query_id) s.queries ≡ some q
          → some q.status ⟶ some status)
      → update_query_status s query_id status ≡ ok t
      → Progress s t
  unfolding update_query_status
  update_query_status-Progress s t query_id status edge h id =
      elim (Bool-cases (any (λ q. q.id == query_id) s.queries)) [
        | inr e ↦ absurd (ground (arith, e, h))
        | inl e ↦
            let same : record {
              queries = update_first (λ q. q.id == query_id) (set_query status) s.queries;
            }
                ≡ t =
              ground (arith, e, h) in
            subst (λ u. status_of s id ⟶* status_of u id) same
              (elim (find-update_first_cases (λ item. item.id == id) (λ q. q.id == query_id)
                (set_query status) s.queries (λ y. refl)) [
                  | inl e' ↦ ⟶*-reflexive (ap status_in (sym e'))
                  | inr (q, was, is, at) ↦
                      let is_id = find_satisfies (λ item. item.id == id) s.queries q was in
                      let ids : id ≡ query_id = ground (arith, is_id, at) in
                      subst (λ o. status_of s id ⟶* o) (sym (ap status_in is))
                        (subst (λ o. o ⟶* some status) (sym (ap status_in was))
                          (then
                            (edge q
                              (subst (λ n. find (λ item. item.id == n) s.queries ≡ some q) ids was))
                            here))
                ])
      ]

  found_status :
      (s : QueryHandlerState X) (id : ℕ) (status : Status)
      → status_of s id ≡ some status
      → (q : Query X) × (find (λ item. item.id == id) s.queries ≡ some q)
  found_status s id status h = elim (Option-cases (find (λ item. item.id == id) s.queries)) [
    | inl e ↦ absurd (ground (arith, sym (ap status_in e) ∙ h))
    | inr (q, e) ↦ (q, e)
  ]

  -- A query that is there gets the status.
  pub update_query_status-status_of :
      (s : QueryHandlerState X) (id : ℕ) (was status : Status)
      → status_of s id ≡ some was
      → (t : QueryHandlerState X) × (update_query_status s id status ≡ ok t)
        × (status_of t id ≡ some status)
  unfolding update_query_status
  update_query_status-status_of s id was status h =
      let (q, e) = found_status s id was h in
      let at = find_satisfies (λ item. item.id == id) s.queries q e in
      (
        record { queries = update_first (λ q. q.id == id) (set_query status) s.queries },
        rw (find-any (λ item. item.id == id) s.queries q e) refl,
        ap status_in (
            find-update_first (λ item. item.id == id) (λ item. item.id == id) (set_query status)
              s.queries q (λ y k. k) e at at),
      )

  find-append :
      (id : ℕ) (qs : List (Query X)) (q : Query X)
      → q.status ≡ queued
      → status_in (find (λ item. item.id == id) qs)
        ⟶* status_in (find (λ item. item.id == id) (qs ++ (q ∷ [])))
  find-append id [] q h = elim (Bool-cases (q.id == id)) [
    | inl e ↦ rw (e, h) (then create here)
    | inr e ↦ rw (e) here
  ]
  find-append id (x ∷ qs) q h = elim (Bool-cases (x.id == id)) [
    | inl e ↦ rw (e) here
    | inr e ↦ rw (e) (find-append id qs q h)
  ]

  pub add_query-Progress :
      (s : QueryHandlerState X) (q : Query X) → q.status ≡ queued → Progress s (add_query s q)
  unfolding add_query
  add_query-Progress s q h id = find-append id s.queries q h

  status_after-⟶* :
      (status : Status) (cs : List (Claim X)) → some status ⟶* some (status_after status cs)
  status_after-⟶* status [] = here
  status_after-⟶* status (c ∷ cs) = started-⟶* status

  AllSettled-⟶* :
      (left : TotalOperatorCompute) (qs qs' : List (Query X)) (cs : List (Claim X)) (id : ℕ)
      → AllSettled left qs qs' cs
      → status_in (find (λ item. item.id == id) qs) ⟶* status_in (find (λ item. item.id == id) qs')
  AllSettled-⟶* left _ _ _ id all_done = here
  AllSettled-⟶* left (q ∷ qs) (_ ∷ qs') cs id (closed t rest) = elim (Bool-cases (q.id == id)) [
    | inl e ↦ rw (e) here
    | inr e ↦ rw (e) (AllSettled-⟶* left qs qs' cs id rest)
  ]
  AllSettled-⟶* left (q ∷ qs) (_ ∷ qs') _ id
        (open_query {ops' = ops'} {cs = cs} {ds = ds} t here' rest) =
      elim (Bool-cases (q.id == id)) [
        | inl e ↦ rw (e) (status_after-⟶* q.status cs)
        | inr e ↦ rw (e) (AllSettled-⟶* left qs qs' ds id rest)
      ]

  pub claim-Progress :
      (s : QueryHandlerState X) (available : TotalOperatorCompute)
      → Progress s (claim_operator_instances_up_to_compute_available s available).0
  claim-Progress s available id =
      let (left, _, settled) = claim-AllSettled s available in
      AllSettled-⟶* left s.queries
        (claim_operator_instances_up_to_compute_available s available).0.queries
        (claim_operator_instances_up_to_compute_available s available).1 id settled
