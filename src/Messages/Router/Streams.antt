-- ===== src/Messages/Router/Streams.antt =====
-- Which stream a worker is reached on.
use chapterhouse_qe.Common.{
  ℕ, ◌≡◌, ◌≢◌, refl, sym, ap, ◌∙◌, false, not, ◌&&◌, ◌==◌, Option, none, some, List, [], ◌∷◌, ◌++◌,
  select, Bool-cases, Option-cases, inl, inr, arith,
}
use chapterhouse_qe.Messages.Message.{Payloads}
use chapterhouse_qe.Messages.Router.{
  ExternalSubscriber, inbound_client_connection, outbound_worker, subscriber_eq, MessageRouterState,
  worker_stream, add_external_subscriber, get_worker_outbound_stream,
}

abbrev pub or_new : Option ℕ → ℕ → Option ℕ
or_new none stream = some stream
or_new (some old) stream = some old

-- The lookup behind the change of one worker's stream.
worker_stream-add :
    (w stream : ℕ) (subs : List ExternalSubscriber)
    → worker_stream w (
        select (λ item. not (subscriber_eq item (outbound_worker w stream))) subs
        ++ (outbound_worker w stream ∷ []))
      ≡ or_new
          (worker_stream w
            (select (λ item. not (subscriber_eq item (outbound_worker w stream))) subs))
          stream
unfolding worker_stream
worker_stream-add w stream subs =
    behind (select (λ item. not (subscriber_eq item (outbound_worker w stream))) subs)
  where
    behind :
        (xs : List ExternalSubscriber)
        → worker_stream w (xs ++ (outbound_worker w stream ∷ []))
          ≡ or_new (worker_stream w xs) stream
    behind [] = ground arith
    behind (inbound_client_connection c s ∷ xs) = behind xs
    behind (outbound_worker v s ∷ xs) = ground (arith, behind xs)

other_stream : (v w s t : ℕ) → s ≢ t → (v == w && s == t) ≡ false
other_stream v w s t h = ground (arith, h)

other_worker : (v w s t : ℕ) → (w == v) ≡ false → (v == w && s == t) ≡ false
other_worker v w s t h = ground (arith, h)

-- A worker whose stream is another one keeps it.
worker_stream-select :
    (w stream old : ℕ) (subs : List ExternalSubscriber)
    → worker_stream w subs ≡ some old
    → old ≢ stream
    → worker_stream w (select (λ item. not (subscriber_eq item (outbound_worker w stream))) subs)
      ≡ some old
unfolding worker_stream
worker_stream-select w stream old [] h apart = absurd (cc)
worker_stream-select w stream old (inbound_client_connection c s ∷ subs) h apart =
    worker_stream-select w stream old subs h apart
worker_stream-select w stream old (outbound_worker v s ∷ subs) h apart =
    elim (Bool-cases (w == v)) [
      | inl t ↦
          let same : s ≡ old = ground (arith, t, h) in
          let kept : (v == w && s == stream) ≡ false =
            other_stream v w s stream (λ e. apart (sym same ∙ e)) in
          rw (kept, t) (ap some same)
      | inr t ↦
          rw (other_worker v w s stream t, t)
            (worker_stream-select w stream old subs (ground (arith, t, h)) apart)
    ]

worker_stream-select_absent :
    (w stream : ℕ) (subs : List ExternalSubscriber)
    → worker_stream w subs ≡ none
    → worker_stream w (select (λ item. not (subscriber_eq item (outbound_worker w stream))) subs)
      ≡ none
unfolding worker_stream
worker_stream-select_absent w stream [] h = refl
worker_stream-select_absent w stream (inbound_client_connection c s ∷ subs) h =
    worker_stream-select_absent w stream subs h
worker_stream-select_absent w stream (outbound_worker v s ∷ subs) h = elim (Bool-cases (w == v)) [
  | inl t ↦ absurd (ground (arith, t, h))
  | inr t ↦
      rw (other_worker v w s stream t, t)
        (worker_stream-select_absent w stream subs (ground (arith, t, h)))
]

module _ {P : Payloads} where
  -- When a worker is added with a stream, it is reached on this stream only if it was not known before:
  -- a worker that is known by another stream is still reached on that other one.
  pub add_external_subscriber-get_worker_outbound_stream :
      (s : MessageRouterState P) (w stream : ℕ)
      → get_worker_outbound_stream s w ≢ some stream
      → get_worker_outbound_stream (add_external_subscriber s (outbound_worker w stream)) w
        ≡ or_new (get_worker_outbound_stream s w) stream
  unfolding get_worker_outbound_stream add_external_subscriber
  add_external_subscriber-get_worker_outbound_stream s w stream apart =
      worker_stream-add w stream s.external_subscribers
      ∙ ap (λ o. or_new o stream)
          (elim (Option-cases (worker_stream w s.external_subscribers)) [
            | inl e ↦ worker_stream-select_absent w stream s.external_subscribers e ∙ sym e
            | inr (old, e) ↦
                worker_stream-select w stream old s.external_subscribers e
                  (λ same. apart (e ∙ ap some same))
                ∙ sym e
          ])
