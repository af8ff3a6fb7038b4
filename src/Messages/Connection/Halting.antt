-- ===== src/Messages/Connection/Halting.antt =====
-- How the inner turns of the connection's loop come to their end.
use chapterhouse_qe.Common.{
  ℕ, zero, suc, ◌+◌, ◌-◌, ◌^◌, ◌<◌, ◌≡◌, ◌≢◌, refl, subst, Bool, true, false, Option, none, some,
  List, [], ◌∷◌, length, ltb, if◌then◌else◌, Outcome, ok, err, panic, ◌>>=◌, arith,
}
use chapterhouse_qe.Messages.Bytes.{ByteOrder, take, drop, read_uints}
use chapterhouse_qe.Messages.Wire.{
  SerializedMessage, SerializedMessageError, widths, header_of, check, read_data, parse,
  parse_registered_msg_id, incomplete, buffer_read_to_end_failed, unable_to_cast_message_to_type,
}
use chapterhouse_qe.Messages.Message.{
  Payloads, Message, MessageRegistryError, message_id_not_in_registry, of_wire, of_parse, build_msg,
}
use chapterhouse_qe.Messages.Connection.{Connection, Drained, out_of_fuel, turned, drain}

drop-shorter : (n : ℕ) (bs : List ℕ) → 0 < n → n < length bs + 1 → length (drop n bs) < length bs
drop-shorter zero bs h k = absurd (ground (arith, h))
drop-shorter (suc n) [] h k = absurd (ground (arith, k))
drop-shorter (suc zero) (b ∷ bs) h k = ground arith
drop-shorter (suc (suc n)) (b ∷ bs) h k =
    let rest = drop-shorter (suc n) bs (ground arith) (ground (arith, k)) in ground (arith, rest)

fits : (l n : ℕ) → ltb l n ≡ false → n < l + 1
fits l n h = ground (arith, h)

-- A result that is there leaves fewer bytes than there were.
unfoldable IsShorter : {E A : Type 0} → List ℕ → Outcome E (A × List ℕ) → Type 0
IsShorter buf (ok (a, rest)) = length rest < length buf
IsShorter buf (err e) = Unit {0}
IsShorter buf panic = Unit {0}

abbrev Read : Type 0
Read = Outcome SerializedMessageError (SerializedMessage × List ℕ)

abbrev failed : SerializedMessageError → Read
failed e = err e

abbrev panicked : Read
panicked = panic

abbrev left : SerializedMessage → List ℕ → Read
left h rest = ok (h, rest)

failed-IsShorter : (buf : List ℕ) (e : SerializedMessageError) → IsShorter buf (failed e)
unfolding IsShorter
failed-IsShorter buf e = tt

panicked-IsShorter : (buf : List ℕ) → IsShorter buf panicked
unfolding IsShorter
panicked-IsShorter buf = tt

left-IsShorter :
    (buf : List ℕ) (h : SerializedMessage) (rest : List ℕ)
    → length rest < length buf
    → IsShorter buf (left h rest)
unfolding IsShorter
left-IsShorter buf h rest k = k

module _ {E A : Type 0} (buf : List ℕ) where
  if-IsShorter :
      (b : Bool) (x y : Outcome E (A × List ℕ))
      → IsShorter buf x
      → (b ≡ false → IsShorter buf y)
      → IsShorter buf (if b then x else y)
  if-IsShorter true x y h k = h
  if-IsShorter false x y h k = k refl

  bind-IsShorter :
      {B : Type 0} (r : Outcome E B) (f : B → Outcome E (A × List ℕ))
      → ((b : B) → IsShorter buf (f b))
      → IsShorter buf (r >>= f)
  unfolding IsShorter
  bind-IsShorter (ok b) f h = h b
  bind-IsShorter (err e) f h = tt
  bind-IsShorter panic f h = tt

module _ (order : ByteOrder) where
  read_data-IsShorter :
      (buf : List ℕ) (h : Option SerializedMessage) (rest : List ℕ)
      → IsShorter buf (read_data order buf h rest)
  unfolding read_data
  read_data-IsShorter buf none rest = panicked-IsShorter buf
  read_data-IsShorter buf (some h) rest =
      let whole = 4 + h.header_len + h.data_len in
      let found = left (record h { msg_data = take h.data_len rest }) (drop whole buf) in
      let there = if ltb (length buf) whole then panicked else found in
      let stops = failed-IsShorter buf buffer_read_to_end_failed in
      let panics = panicked-IsShorter buf in
      if-IsShorter buf (ltb (2 ^ 63 - 1) h.data_len) panicked
        (if ltb (length rest) h.data_len then failed buffer_read_to_end_failed else there) panics
        (λ small.
          if-IsShorter buf (ltb (length rest) h.data_len) (failed buffer_read_to_end_failed) there
            stops
            (λ enough. if-IsShorter buf (ltb (length buf) whole) panicked found panics (λ long.
              left-IsShorter buf (record h { msg_data = take h.data_len rest }) (drop whole buf)
                (drop-shorter whole buf (omega arith) (fits (length buf) whole long)))))

  parse-IsShorter : (buf : List ℕ) → IsShorter buf (parse order buf)
  unfolding parse
  parse-IsShorter buf = bind-IsShorter buf (check order buf) _ (λ ready.
      bind-IsShorter buf (read_uints order widths buf) _
        (λ header. read_data-IsShorter buf (header_of (header.0)) (header.1)))

of_parse-IsShorter :
    (P : Payloads) (buf : List ℕ) (r : Outcome SerializedMessageError (SerializedMessage × List ℕ))
    → IsShorter buf r
    → IsShorter buf (of_parse {P = P} r)
unfolding IsShorter
of_parse-IsShorter P buf (ok q) h = h
of_parse-IsShorter P buf (err incomplete) h = tt
of_parse-IsShorter P buf (err buffer_read_to_end_failed) h = tt
of_parse-IsShorter P buf (err (unable_to_cast_message_to_type name)) h = tt
of_parse-IsShorter P buf panic h = tt

shorter :
    {E A : Type 0} (buf : List ℕ) (r : Outcome E (A × List ℕ)) (q : A × List ℕ)
    → r ≡ ok q
    → IsShorter buf r
    → length (q.1) < length buf
unfolding IsShorter
shorter buf r q e h = subst (IsShorter buf) e h

module _ {P : Payloads} where
  -- The message that is there leaves fewer bytes than there were.
  unfoldable Takes : List ℕ → Outcome (MessageRegistryError P) (Message P) × List ℕ → Type 0
  Takes buf (ok msg, rest) = length rest < length buf
  Takes buf (err e, rest) = Unit {0}
  Takes buf (panic, rest) = Unit {0}

  failed-Takes : (buf : List ℕ) (e : MessageRegistryError P) → Takes buf (err e, buf)
  unfolding Takes
  failed-Takes buf e = tt

  choose-Takes :
      {Q : Type 0} (buf : List ℕ) (o : Option Q)
      (x : Outcome (MessageRegistryError P) (Message P) × List ℕ)
      (f : Q → Outcome (MessageRegistryError P) (Message P) × List ℕ)
      → Takes buf x
      → ((q : Q) → Takes buf (f q))
      → Takes buf (elim o [ none ↦ x | some q ↦ f q ])
  choose-Takes buf none x f h k = h
  choose-Takes buf (some q) x f h k = k q

  then-Takes :
      {Q : Type 0} (buf : List ℕ) (r : Outcome (MessageRegistryError P) Q)
      (f : Q → Outcome (MessageRegistryError P) (Message P) × List ℕ)
      → ((q : Q) → r ≡ ok q → Takes buf (f q))
      → Takes buf (elim r [ err e ↦ (err e, buf) | panic ↦ (panic, buf) | ok q ↦ f q ])
  unfolding Takes
  then-Takes buf (ok q) f k = k q refl
  then-Takes buf (err e) f k = tt
  then-Takes buf panic f k = tt

  paired-Takes :
      (buf rest : List ℕ) (r : Outcome (MessageRegistryError P) (Message P))
      → length rest < length buf
      → Takes buf (r, rest)
  unfolding Takes
  paired-Takes buf rest (ok m) h = h
  paired-Takes buf rest (err e) h = tt
  paired-Takes buf rest panic h = tt

module _ (P : Payloads) (order : ByteOrder) where
  build_msg-Takes : (buf : List ℕ) → Takes {P = P} buf (build_msg order buf)
  unfolding build_msg
  build_msg-Takes buf = then-Takes buf (of_wire (parse_registered_msg_id order buf)) _ (λ id e.
      choose-Takes buf (P.build_msg id) _ _ (failed-Takes buf (message_id_not_in_registry id))
        (λ parser. then-Takes buf (of_parse (parse order buf)) _ (λ q got.
          paired-Takes buf (q.1) _ (
            shorter buf (of_parse (parse order buf)) q got
              (of_parse-IsShorter P buf (parse order buf) (parse-IsShorter order buf))))))

  halts :
      (conn : Connection) (buf : List ℕ) (r : Outcome (MessageRegistryError P) (Message P) × List ℕ)
      (next : List ℕ → Drained P)
      → Takes buf r
      → ((rest : List ℕ) → length rest < length buf → (next rest).halt ≢ out_of_fuel)
      → (turned order conn r next).halt ≢ out_of_fuel
  unfolding Takes
  halts conn buf (ok msg, rest) next h k = k rest h
  halts conn buf (err e, rest) next h k = λ e. absurd (cc)
  halts conn buf (panic, rest) next h k = λ e. absurd (cc)

  -- The inner turns of the loop, with more fuel than there are bytes in the buffer, do not run out of
  -- it: they end since more bytes are needed or in a panic.
  pub drain-halts :
      (conn : Connection) (fuel : ℕ) (buf : List ℕ)
      → length buf < fuel
      → (drain {P = P} order conn fuel buf).halt ≢ out_of_fuel
  unfolding drain
  drain-halts conn zero buf h = absurd (ground (arith, h))
  drain-halts conn (suc fuel) buf h =
      halts conn buf (build_msg order buf) (λ rest. drain order conn fuel rest)
        (build_msg-Takes buf)
        (λ rest shorter. drain-halts conn fuel rest (omega (arith, h, shorter)))
