-- ===== src/Exchange/Pool/Queues/Laws.antt =====
-- Looking up the queue of an operator and writing it back.
use chapterhouse_qe.Common.{
  ◌≡◌, refl, subst, false, some, List, [], ◌∷◌, map, arith, inl, inr, if◌then◌else◌, any, All, Text,
  text_eq, text_eq_refl, text_eq→eq, text_eq_comm, Distinct, Bool-cases,
}
use chapterhouse_qe.Exchange.Pool.Queues.Defs.{OperatorRecordQueue, find_queue, set_queue}

abbrev pub ids : List OperatorRecordQueue → List Text
ids qs = map (λ q. q.operator_id) qs

pub find_queue_id :
    (id : Text) (qs : List OperatorRecordQueue) (q : OperatorRecordQueue)
    → find_queue id qs ≡ some q
    → q.operator_id ≡ id
unfolding find_queue
find_queue_id id [] q e = cc
find_queue_id id (x ∷ qs) q e = ground (arith, find_queue_id id qs q, text_eq→eq x.operator_id id)

pub find_queue-All :
    (P : OperatorRecordQueue → Type 0) (id : Text) (qs : List OperatorRecordQueue)
    (q : OperatorRecordQueue)
    → find_queue id qs ≡ some q
    → All P qs
    → P q
unfolding find_queue
find_queue-All P id [] q e h = absurd (cc)
find_queue-All P id (x ∷ qs) q e h = elim (Bool-cases (text_eq x.operator_id id)) [
  | inl hit ↦ subst P (ground arith) h.0
  | inr miss ↦ find_queue-All P id qs q (ground arith) h.1
]

pub ids-set_queue :
    (id : Text) (q' : OperatorRecordQueue) (qs : List OperatorRecordQueue)
    → q'.operator_id ≡ id
    → ids (set_queue id q' qs) ≡ ids qs
unfolding set_queue
ids-set_queue id q' [] e = refl
ids-set_queue id q' (x ∷ qs) e = ground (arith, ids-set_queue id q' qs, text_eq→eq x.operator_id id)

pub find_queue-set_queue :
    (id j : Text) (q q' : OperatorRecordQueue) (qs : List OperatorRecordQueue)
    → find_queue id qs ≡ some q
    → q'.operator_id ≡ id
    → find_queue j (set_queue id q' qs) ≡ (if text_eq id j then some q' else find_queue j qs)
unfolding set_queue find_queue
find_queue-set_queue id j q q' [] e h = cc
find_queue-set_queue id j q q' (x ∷ qs) e h = ground (
  arith,
  find_queue-set_queue id j q q' qs,
  text_eq→eq x.operator_id id,
  text_eq→eq x.operator_id j,
  text_eq→eq id j,
  text_eq_refl id,
  text_eq_refl j,
)

module _ {P P' : OperatorRecordQueue → Type 0} (id : Text) (q' : OperatorRecordQueue)
    (others : (x : OperatorRecordQueue) → text_eq x.operator_id id ≡ false → P x → P' x) where
  All-others :
      (qs : List OperatorRecordQueue) → any (text_eq id) (ids qs) ≡ false → All P qs → All P' qs
  All-others [] n h = tt
  All-others (x ∷ qs) n h = (
    others x (ground (arith, text_eq_comm id x.operator_id)) h.0,
    All-others qs (ground arith) h.1,
  )

  -- A predicate over all the queues, where one operator's queue is replaced.
  pub set_queue-All :
      (qs : List OperatorRecordQueue)
      → Distinct (ids qs)
      → P' q'
      → All P qs
      → All P' (set_queue id q' qs)
  unfolding set_queue
  set_queue-All [] d new h = tt
  set_queue-All (x ∷ qs) d new h = elim (Bool-cases (text_eq x.operator_id id)) [
    | inl hit ↦ rw hit (new, All-others qs (rw (text_eq→eq x.operator_id id hit) at d.0) h.1)
    | inr miss ↦ rw miss (others x miss h.0, set_queue-All qs d.1 new h.1)
  ]
