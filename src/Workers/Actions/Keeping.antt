-- ===== src/Workers/Actions/Keeping.antt =====
-- A relation between the states before and after: every action keeps one that its parts keep.
use chapterhouse_qe.Common.{
  ℕ, zero, suc, ◌≡◌, refl, ◌∙◌, List, [], ◌∷◌, Outcome, ok, err, panic, Bool-cases, inl, inr,
}
use chapterhouse_qe.Messages.Names.{MessageName}
use chapterhouse_qe.Messages.Message.{Payloads, Message}
use chapterhouse_qe.Workers.Actions.{
  Environment, Context, HandlerError, Action, pure, throw, ◌>>=◌, ask, update, modify, and_then,
  changed, or_again, for_each, send, send_one, send_all, send_request, reply, retry_request,
}

-- A reflexive and transitive relation.
pub record Preorder (S : Type 0) : Type 1 where
  pub Rel : S → S → Type 0
  pub same : (s : S) → Rel s s
  pub trans : (s t u : S) → Rel s t → Rel t u → Rel s u

abbrev pub unchanged : (S : Type 0) → Preorder S
unchanged S = record { Rel = λ s t. s ≡ t; same = λ s. refl; trans = λ s t u a b. a ∙ b }

module _ (P : Payloads) {S : Type 0} (E : Type 0) (R : Preorder S) where
  abbrev pub Keeps : {A : Type 0} → Action P S E A → Type 0
  Keeps m = (ctx : Context P S) → R.Rel ctx.state (m ctx).1.state

  pub pure-Keeps : {A : Type 0} (a : A) → Keeps (pure a)
  pure-Keeps a ctx = R.same ctx.state

  pub throw-Keeps : (A : Type 0) (e : HandlerError E) → Keeps {A = A} (throw e)
  throw-Keeps A e ctx = R.same ctx.state

  and_then-Keeps :
      {A B : Type 0} (s : S) (r : Outcome (HandlerError E) A × Context P S) (f : A → Action P S E B)
      → R.Rel s r.1.state
      → ((a : A) → Keeps (f a))
      → R.Rel s (and_then r f).1.state
  and_then-Keeps s (ok a, after) f k h = R.trans s after.state (f a after).1.state k (h a after)
  and_then-Keeps s (err e, after) f k h = k
  and_then-Keeps s (panic, after) f k h = k

  pub bind-Keeps :
      {A B : Type 0} (m : Action P S E A) (f : A → Action P S E B)
      → Keeps m
      → ((a : A) → Keeps (f a))
      → Keeps (m >>= f)
  bind-Keeps m f hm hf ctx = and_then-Keeps ctx.state (m ctx) f (hm ctx) hf

  pub ask-Keeps : {A : Type 0} (f : S → Outcome E A) → Keeps (ask f)
  ask-Keeps f ctx = R.same ctx.state

  pub changed-Keeps :
      (ctx : Context P S) (r : Outcome E S)
      → ((t : S) → r ≡ ok t → R.Rel ctx.state t)
      → R.Rel ctx.state (changed ctx r).1.state
  changed-Keeps ctx (ok t) k = k t refl
  changed-Keeps ctx (err e) k = R.same ctx.state
  changed-Keeps ctx panic k = R.same ctx.state

  pub update-Keeps : (f : S → Outcome E S) → ((s t : S) → f s ≡ ok t → R.Rel s t) → Keeps (update f)
  update-Keeps f h ctx = changed-Keeps ctx (f ctx.state) (h ctx.state)

  pub modify-Keeps : (f : S → S) → ((s : S) → R.Rel s (f s)) → Keeps (modify f)
  modify-Keeps f h ctx = h ctx.state

  pub for_each-Keeps :
      {A : Type 0} (xs : List A) (f : A → Action P S E (Unit {0}))
      → ((a : A) → Keeps (f a))
      → Keeps (for_each xs f)
  for_each-Keeps [] f h = pure-Keeps tt
  for_each-Keeps (x ∷ xs) f h =
      bind-Keeps (f x) (λ _. for_each xs f) (h x) (λ _. for_each-Keeps xs f h)

  or_again-Keeps :
      {A : Type 0} (s : S) (r : Outcome (HandlerError E) A × Context P S) (again : Action P S E A)
      → R.Rel s r.1.state
      → Keeps again
      → R.Rel s (or_again r again).1.state
  or_again-Keeps s (ok a, after) again k h = k
  or_again-Keeps s (err e, after) again k h =
      R.trans s after.state (again after).1.state k (h after)
  or_again-Keeps s (panic, after) again k h = k

  pub retry_request-Keeps :
      {A : Type 0} (retries : ℕ) (try : Action P S E A)
      → Keeps try
      → Keeps (retry_request retries try)
  unfolding retry_request
  retry_request-Keeps zero try h ctx = h ctx
  retry_request-Keeps (suc retries) try h ctx =
      or_again-Keeps ctx.state (try ctx) (retry_request retries try) (h ctx)
        (retry_request-Keeps retries try h)

  module _ (env : Environment P) where
    pub send-Keeps : (msg : Message P) → Keeps (send env msg)
    unfolding send
    send-Keeps msg ctx = elim (Bool-cases (env.accepts ctx.calls)) [
      | inl e ↦ rw (e, send) (R.same ctx.state)
      | inr e ↦ rw (e, send) (R.same ctx.state)
    ]

    pub send_one-Keeps : (msg : Message P) → Keeps (send_one env msg)
    unfolding send_one
    send_one-Keeps msg ctx = elim (Bool-cases (env.accepts ctx.calls)) [
      | inl e ↦ rw (e, send_one) (R.same ctx.state)
      | inr e ↦ rw (e, send_one) (R.same ctx.state)
    ]

    pub send_all-Keeps : (msgs : List (Message P)) → Keeps (send_all env msgs)
    unfolding send_all
    send_all-Keeps msgs = for_each-Keeps msgs (send_one env) send_one-Keeps

    pub reply-Keeps : (msg : Message P) (payload : P.Sendable) → Keeps (reply env msg payload)
    unfolding reply
    reply-Keeps msg payload ctx = send-Keeps _ ctx

    pub send_request-Keeps :
        (name : MessageName) (msg : Message P) → Keeps (send_request env name msg)
    unfolding send_request
    send_request-Keeps name msg =
        bind-Keeps (send env msg) _ (send-Keeps msg) (λ _. λ ctx. R.same ctx.state)
