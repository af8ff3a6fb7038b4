-- ===== src/Messages/Pipe/Replies.antt =====
-- The queue and the channel of a pipe are one sequence to a request that waits for its reply.
use chapterhouse_qe.Common.{
  ℕ, suc, ◌+◌, ◌≤◌, ◌≡◌, refl, sym, ap, ap₂, subst, ◌∙◌, true, false, Option, none, some, List, [],
  ◌∷◌, ◌++◌, ◌==◌, ltb, if◌then◌else◌, length, length-append, append_assoc, Bool-cases,
  Option-cases, inl, inr, ok, arith,
}
use chapterhouse_qe.Messages.Message.{Payloads, Message}
use chapterhouse_qe.Messages.Pipe.{Pipe, Ending, keep, take_request, wait, recv_request}

module _ {P : Payloads} where
  -- How many messages come before the first one of a request.
  abbrev pub place : ℕ → List (Message P) → ℕ
  place request_id [] = 0
  place request_id (msg ∷ msgs) =
      if msg.request_id == request_id then 0 else suc (place request_id msgs)

  keep-none :
      (x : Message P) (o : Option (Message P × List (Message P))) → keep x o ≡ none → o ≡ none
  keep-none x none h = refl
  keep-none x (some (found, others)) h = absurd (cc)

  keep-some :
      (x : Message P) (o : Option (Message P × List (Message P))) (m : Message P)
      (others : List (Message P))
      → keep x o ≡ some (m, others)
      → (rest : List (Message P)) × (o ≡ some (m, rest)) × (others ≡ x ∷ rest)
  keep-some x none m others h = absurd (cc)
  keep-some x (some (found, rest)) m others h =
      let same : found ≡ m = cc in (rest, ap (λ t. some (t, rest)) same, cc)

  -- What the search finds when the head is not it.
  take_tail :
      (id : ℕ) (x : Message P) (xs : List (Message P)) (m : Message P) (others : List (Message P))
      → (x.request_id == id) ≡ false
      → take_request id (x ∷ xs) ≡ some (m, others)
      → (rest : List (Message P)) × (take_request id xs ≡ some (m, rest)) × (others ≡ x ∷ rest)
  unfolding take_request
  take_tail id x xs m others t e = keep-some x (take_request id xs) m others (sym (rw (t) refl) ∙ e)

  take_head :
      (id : ℕ) (x : Message P) (xs : List (Message P)) (m : Message P) (others : List (Message P))
      → (x.request_id == id) ≡ true
      → take_request id (x ∷ xs) ≡ some (m, others)
      → (x ≡ m) × (xs ≡ others)
  unfolding take_request
  take_head id x xs m others t e =
      let found : some (x, xs) ≡ some (m, others) = sym (rw (t) refl) ∙ e in (cc, cc)

  take_none-append :
      (id : ℕ) (xs ys : List (Message P)) (m : Message P) (others : List (Message P))
      → take_request id xs ≡ none
      → take_request id (xs ++ ys) ≡ some (m, others)
      → (rest : List (Message P)) × (take_request id ys ≡ some (m, rest)) × (others ≡ xs ++ rest)
  unfolding take_request
  take_none-append id [] ys m others e h = (others, h, refl)
  take_none-append id (x ∷ xs) ys m others e h = elim (Bool-cases (x.request_id == id)) [
    | inl t ↦ absurd (ground (arith, t, e))
    | inr t ↦
        let missing : take_request id xs ≡ none =
          keep-none x (take_request id xs) (sym (rw (t) refl) ∙ e) in
        let (o, f, g) = take_tail id x (xs ++ ys) m others t h in
        let (rest, f', g') = take_none-append id xs ys m o missing f in
        (rest, f', g ∙ ap (λ zs. x ∷ zs) g')
  ]

  take_some-append :
      (id : ℕ) (xs ys : List (Message P)) (m : Message P) (others : List (Message P))
      → take_request id xs ≡ some (m, others)
      → take_request id (xs ++ ys) ≡ some (m, others ++ ys)
  unfolding take_request
  take_some-append id [] ys m others e = absurd (cc)
  take_some-append id (x ∷ xs) ys m others e = elim (Bool-cases (x.request_id == id)) [
    | inl t ↦
        let (same, rest) = take_head id x xs m others t e in
        rw (t) (ap some (ap₂ (λ a b. (a, b ++ ys)) same rest))
    | inr t ↦
        let (o, f, g) = take_tail id x xs m others t e in
        rw (t)
          (ap (keep x) (take_some-append id xs ys m o f) ∙ ap (λ zs. some (m, zs ++ ys)) (sym g))
  ]

  wait_found :
      (id most : ℕ) (queue arrivals : List (Message P)) (ending : Ending) (m : Message P)
      (others : List (Message P))
      → take_request id arrivals ≡ some (m, others)
      → length queue + place id arrivals ≤ most
      → ((wait id most queue arrivals ending).result ≡ ok (some m))
        × ((wait id most queue arrivals ending).msg_queue
              ++ (wait id most queue arrivals ending).rest
            ≡ queue ++ others)
  unfolding wait
  wait_found id most queue [] ending m others e h = absurd (unfold take_request in cc)
  wait_found id most queue (x ∷ xs) ending m others e h = elim (Bool-cases (x.request_id == id)) [
    | inl t ↦
        let (same, rest) = take_head id x xs m others t e in
        rw (t) (ap (λ a. ok (some a)) same, ap (λ zs. queue ++ zs) rest)
    | inr t ↦
        let (o, f, g) = take_tail id x xs m others t e in
        let room : length queue + suc (place id xs) ≤ most =
          subst (λ k. length queue + k ≤ most) (rw (t) refl) h in
        let added = length-append queue (x ∷ []) in
        let (r, q) =
          wait_found id most (queue ++ (x ∷ [])) xs ending m o f (omega (arith, room, added)) in
        rw (t, below (length queue) most (place id xs) room)
          (r, q ∙ append_assoc queue (x ∷ []) o ∙ ap (λ zs. queue ++ zs) (sym g))
  ]
    where
      below : (a b c : ℕ) → a + suc c ≤ b → ltb a b ≡ true
      below a b c h = ground (arith, h)

  parts :
      {a c : Message P} {b d : List (Message P)}
      → ◌≡◌ {A = Option (Message P × List (Message P))} (some (a, b)) (some (c, d))
      → (a ≡ c) × (b ≡ d)
  parts h = (cc, cc)

  -- If the queue and what arrives, as one sequence, hold a reply to the request, and if the messages that
  -- arrive before it find room in the queue, then the call returns the first such reply, and the queue
  -- and the channel together keep all other messages in their order: none is lost, none doubled.
  pub recv_request-found :
      (p : Pipe P) (id : ℕ) (arrivals : List (Message P)) (ending : Ending) (m : Message P)
      (others : List (Message P))
      → take_request id (p.msg_queue ++ arrivals) ≡ some (m, others)
      → length p.msg_queue + place id arrivals ≤ p.max_msg_queue_length
      → ((recv_request p id arrivals ending).result ≡ ok (some m))
        × ((recv_request p id arrivals ending).msg_queue ++ (recv_request p id arrivals ending).rest
            ≡ others)
  unfolding recv_request
  recv_request-found p id arrivals ending m others e h =
      elim (Option-cases (take_request id p.msg_queue)) [
        | inl n ↦
            let (rest, f, g) = take_none-append id p.msg_queue arrivals m others n e in
            let (r, q) =
              wait_found id p.max_msg_queue_length p.msg_queue arrivals ending m rest f h in
            rw (n, recv_request) (r, q ∙ sym g)
        | inr ((m', o), n) ↦
            let found : some (m', o ++ arrivals) ≡ some (m, others) =
              sym (take_some-append id p.msg_queue arrivals m' o n) ∙ e in
            rw (n, recv_request) (ap (λ a. ok (some a)) ((parts found).0), (parts found).1)
      ]
