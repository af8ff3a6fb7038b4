-- ===== src/Messages/Connection/Reading.antt =====
-- What the loop of a connection delivers, however the stream is cut into reads.
use chapterhouse_qe.Common.{
  ℕ, zero, suc, ◌<◌, ◌≤◌, ◌≡◌, refl, sym, ap, ap₂, ◌∙◌, subst, false, List, [], ◌∷◌, ◌++◌, map,
  map-append, append_assoc, append-nil, length, length-append, ltb, Outcome, ok, err, inl, inr, ◌⊎◌,
  arith,
}
use chapterhouse_qe.Messages.Bytes.{ByteOrder}
use chapterhouse_qe.Messages.Message.{Payloads, Message, MessageRegistryError, build_msg}
use chapterhouse_qe.Messages.Message.Delivery.{received}
use chapterhouse_qe.Messages.Connection.{
  Connection, ConnectionError, Drained, waits, mark, deliver, turned, drain, max_buffer, also,
  finished, continued, async_main,
}
use chapterhouse_qe.Messages.Connection.Framing.{
  Frame, build_whole, build_partial, build_nothing, wire_length,
}

-- Where two ways to cut the same bytes differ.
cut_lem :
    (x y w r : List ℕ)
    → x ++ y ≡ w ++ r
    → ((x' : List ℕ) × (x ≡ w ++ x') × (x' ++ y ≡ r))
      ⊎ ((b : ℕ) × (q : List ℕ) × (w ≡ x ++ (b ∷ q)) × (y ≡ (b ∷ q) ++ r))
cut_lem x y [] r h = inl (x, refl, h)
cut_lem [] y (b ∷ w) r h = inr (b, w, refl, h)
cut_lem (a ∷ x) y (b ∷ w) r h =
    let heads : a ≡ b = cc in
    let tails : x ++ y ≡ w ++ r = cc in
    elim (cut_lem x y w r tails) [
      | inl (x', e, k) ↦ inl (x', ap₂ (λ c cs. c ∷ cs) heads e, k)
      | inr (c, q, e, k) ↦ inr (c, q, ap₂ (λ c cs. c ∷ cs) (sym heads) e, k)
    ]

abbrev Result : Payloads → Type 0
Result P = List (Message P) × Outcome ConnectionError (Unit {0})

-- The bytes that the reads bring.
abbrev pub all_bytes : List (ℕ × List ℕ) → List ℕ
all_bytes [] = []
all_bytes ((b, bs) ∷ reads) = (b ∷ bs) ++ all_bytes reads

-- The bytes in the buffer when it has been drained, before others: none, or the first ones of a
-- message.
data Pending (P : Payloads) (order : ByteOrder) : List ℕ → List ℕ → Type 0 where
  clean : {y : List ℕ} → Pending P order [] y
  begun :
      {m : Message P} {wire p y : List ℕ} (b : ℕ) (q r : List ℕ)
      → Frame order m wire
      → wire ≡ p ++ (b ∷ q)
      → y ≡ (b ∷ q) ++ r
      → Pending P order p y

module _ {P : Payloads} (order : ByteOrder) where
  -- Messages and the bytes that they are sent as, one behind the other.
  pub data Framed : List (Message P) → List ℕ → Type 0 where
    nothing : Framed [] []
    frame :
        {m : Message P} {wire : List ℕ} {ms : List (Message P)} {bytes : List ℕ}
        → Frame order m wire
        → Framed ms bytes
        → Framed (m ∷ ms) (wire ++ bytes)

  record Cut (ms : List (Message P)) (x y : List ℕ) : Type 0 where
    here : List (Message P)
    there : List (Message P)
    bytes : List ℕ
    p : List ℕ
    before : Framed here bytes
    is : x ≡ bytes ++ p
    all : ms ≡ here ++ there
    behind : Framed there (p ++ y)
    pending : Pending P order p y

  -- A cut through a stream of messages is between two of them or within one.
  cut : (ms : List (Message P)) (bytes x y : List ℕ) → Framed ms bytes → x ++ y ≡ bytes → Cut ms x y
  cut [] _ [] y nothing h = record {
    here = [];
    there = [];
    bytes = [];
    p = [];
    before = nothing;
    is = refl;
    all = refl;
    behind = subst (λ w. Framed [] w) (sym h) nothing;
    pending = clean;
  }
  cut [] _ (a ∷ x) y nothing h = absurd (cc)
  cut (m ∷ ms) _ x y (frame {wire = wire} {bytes = bytes} f rest) h =
      elim (cut_lem x y wire bytes h) [
        | inl (x', e, k) ↦
            let c = cut ms bytes x' y rest k in
            record {
              here = m ∷ c.here;
              there = c.there;
              bytes = wire ++ c.bytes;
              p = c.p;
              before = frame f c.before;
              is = e ∙ ap (λ w. wire ++ w) c.is ∙ sym (append_assoc wire c.bytes c.p);
              all = ap (λ l. m ∷ l) c.all;
              behind = c.behind;
              pending = c.pending;
            }
        | inr (b, q, e, k) ↦ record {
          here = [];
          there = m ∷ ms;
          bytes = [];
          p = x;
          before = nothing;
          is = refl;
          all = refl;
          behind = subst (λ w. Framed (m ∷ ms) w) (sym h) (frame f rest);
          pending = begun b q bytes f e k;
        }
      ]

  Framed-nothing : (ms : List (Message P)) (bytes : List ℕ) → Framed ms bytes → bytes ≡ [] → ms ≡ []
  Framed-nothing [] _ nothing h = refl
  Framed-nothing (m ∷ ms) _ (frame {wire = []} f rest) h =
      absurd (omega (arith, wire_length order m [] f))
  Framed-nothing (m ∷ ms) _ (frame {wire = b ∷ bs} f rest) h = absurd (cc)

  Framed-length :
      (ms : List (Message P)) (bytes : List ℕ) → Framed ms bytes → length ms ≤ length bytes
  Framed-length [] _ nothing = ground arith
  Framed-length (m ∷ ms) _ (frame {wire = wire} {bytes = bytes} f rest) =
      omega
        (arith, Framed-length ms bytes rest, length-append wire bytes, wire_length order m wire f)

  -- Draining hands on the whole messages and leaves what is pending.
  build_pending :
      (p y : List ℕ)
      → Pending P order p y
      → (e : MessageRegistryError P) × (build_msg order p ≡ (err e, p))
  build_pending _ y clean = build_nothing order
  build_pending p y (begun {m = m} {wire = wire} b q r f e k) = build_partial order m wire p b q f e

  module _ (conn : Connection) where
    abbrev pub arrived : Message P → Message P
    arrived m = mark conn (received m)

    abbrev turn : ℕ → Outcome (MessageRegistryError P) (Message P) × List ℕ → Drained P
    turn fuel r = turned order conn r (λ rest. drain order conn fuel rest)

    drain_pending :
        (p y : List ℕ) (fuel : ℕ)
        → Pending P order p y
        → drain {P = P} order conn (suc fuel) p ≡ record { messages = []; buf = p; halt = waits }
    unfolding drain
    drain_pending p y fuel pending =
        let (e, built) = build_pending p y pending in ap (turn fuel) built

    drain_lem :
        (ms : List (Message P)) (bytes p y : List ℕ) (fuel : ℕ)
        → Framed ms bytes
        → Pending P order p y
        → length ms < fuel
        → drain order conn fuel (bytes ++ p)
          ≡ record { messages = map arrived ms; buf = p; halt = waits }
    unfolding drain
    drain_lem ms bytes p y zero framed pending h = absurd (ground (arith, h))
    drain_lem [] _ p y (suc fuel) nothing pending h = drain_pending p y fuel pending
    drain_lem (m ∷ ms) _ p y (suc fuel) (frame {wire = wire} {bytes = bytes} f rest) pending h =
        ap (λ w. turn fuel (build_msg order w)) (append_assoc wire bytes p)
        ∙ ap (turn fuel) (build_whole order m wire (bytes ++ p) f)
        ∙ ap (deliver conn (received m))
            (drain_lem ms bytes p y fuel rest pending (ground (arith, h)))

    drain-Cut :
        (ms : List (Message P)) (x y : List ℕ) (c : Cut ms x y)
        → drain order conn (suc (length x)) x
          ≡ record { messages = map arrived c.here; buf = c.p; halt = waits }
    drain-Cut ms x y c =
        let few = Framed-length c.here c.bytes c.before in
        let long = length-append c.bytes c.p in
        let same = ap length c.is in
        ap (λ w. drain {P = P} order conn (suc (length x)) w) c.is
        ∙ drain_lem c.here c.bytes c.p y (suc (length x)) c.before c.pending
            (omega (arith, few, long, same))

    -- What is pending fits into the buffer.
    pending_fits : (p y : List ℕ) → Pending P order p y → ltb max_buffer (length p) ≡ false
    pending_fits _ y clean = refl
    pending_fits p y (begun {wire = wire} b q r f e k) =
        let long = ap length e in
        let parts = length-append p (b ∷ q) in ground (arith, long, parts, f.bounded)

    also_lem :
        (ms ns all : List (Message P)) (result : Outcome ConnectionError (Unit {0}))
        → all ≡ ms ++ ns
        → also (map arrived ms) (map arrived ns, result) ≡ (map arrived all, result)
    also_lem ms ns all result e =
        let pair : List (Message P) → Result P = λ l. (l, result) in
        ap pair (sym (ap (map arrived) e ∙ map-append arrived ms ns))

    -- With the end of the stream nothing is pending.
    end_lem :
        (p : List ℕ) (there : List (Message P))
        → Pending P order p []
        → Framed there (p ++ [])
        → (p ≡ []) × (there ≡ [])
    end_lem _ there clean framed = (refl, Framed-nothing there [] framed refl)
    end_lem p there (begun b q r f e k) framed = absurd (cc)

    finished_lem :
        (ms : List (Message P)) (x : List ℕ) (c : Cut ms x [])
        → finished (drain {P = P} order conn (suc (length x)) x) ≡ (map arrived ms, ok tt)
    finished_lem ms x c =
        let (clear, last) = end_lem c.p c.there c.pending c.behind in
        let done : List (Message P) → List ℕ → Result P =
          λ here p. finished (record { messages = map arrived here; buf = p; halt = waits }) in
        ap finished (drain-Cut ms x [] c)
        ∙ ap₂ done (sym (append-nil c.here) ∙ ap (λ l. c.here ++ l) (sym last) ∙ sym c.all) clear

    -- Messages that were sent one behind the other, each of at most 10 MiB with at least four bytes of
    -- data, with ids that fit their fields and a payload that the other side's parser reads back, arrive
    -- there as the same messages in the same order, however the stream is cut into reads, and with the
    -- end of the stream the connection closes without an error. `x` are the bytes that are in the buffer already.
    pub async_main-Framed :
        (ms : List (Message P)) (bytes x : List ℕ) (reads : List (ℕ × List ℕ))
        → Framed ms bytes
        → x ++ all_bytes reads ≡ bytes
        → async_main order conn x reads ≡ (map arrived ms, ok tt)
    unfolding async_main
    async_main-Framed ms bytes x [] framed h = finished_lem ms x (cut ms bytes x [] framed h)
    async_main-Framed ms bytes x ((b, bs) ∷ reads) framed h =
        let y = all_bytes ((b, bs) ∷ reads) in
        let c = cut ms bytes x y framed h in
        let next : Drained P → Result P =
          λ d. continued d (async_main order conn (d.buf ++ (b ∷ bs)) reads) in
        ap next (drain-Cut ms x y c)
        ∙ rw (pending_fits c.p y c.pending) (
            ap (also (map arrived c.here)) (
              async_main-Framed c.there (c.p ++ y) (c.p ++ (b ∷ bs)) reads c.behind
                (append_assoc c.p (b ∷ bs) (all_bytes reads)))
            ∙ also_lem c.here c.there ms (ok tt) c.all)
