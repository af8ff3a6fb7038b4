-- ===== src/Messages/Connection.antt =====
-- src/handlers/message_handler/connection.rs, `Connection`: what the loop of `async_main` makes of the
-- bytes that its stream brings. The router takes every message at once; the messages that go out, which
-- the loop writes between two reads, and the cancellation are left out.
pub mod Framing
pub mod Halting
pub mod Reading
use chapterhouse_qe.Common.{
  ℕ, zero, suc, ◌*◌, Bool, true, false, Option, none, some, List, [], ◌∷◌, ◌++◌, ltb, length,
  if◌then◌else◌, Outcome, ok, err, panic,
}
use chapterhouse_qe.Messages.Bytes.{ByteOrder}
use chapterhouse_qe.Messages.Message.{
  Payloads, Message, MessageRegistryError, build_msg, set_inbound_stream_id, set_outbound_stream,
}

pub data ConnectionError : Type 0 where
  connection_reset_by_peer : ConnectionError
  buffer_reached_max_size : ConnectionError

-- Why the inner turns of the loop come to their end: for more bytes, or otherwise.
pub data Halt : Type 0 where
  waits : Halt
  panics : Halt
  out_of_fuel : Halt

pub record Connection : Type 0 where
  pub stream_id : ℕ
  pub is_inbound : Bool

pub record Drained (P : Payloads) : Type 0 where
  pub messages : List (Message P)
  pub buf : List ℕ
  pub halt : Halt

abbrev pub max_buffer : ℕ
max_buffer = 1024 * 1024 * 10

-- The end of the stream.
abbrev pub at_end : List ℕ → Outcome ConnectionError (Unit {0})
at_end [] = ok tt
at_end (b ∷ bs) = err connection_reset_by_peer

abbrev pub also :
    {P : Payloads}
    → List (Message P)
    → List (Message P) × Outcome ConnectionError (Unit {0})
    → List (Message P) × Outcome ConnectionError (Unit {0})
also msgs (more, result) = (msgs ++ more, result)

module _ {P : Payloads} (conn : Connection) where
  -- The stream that a message came on.
  unfoldable pub mark : Message P → Message P
  unfolding set_inbound_stream_id set_outbound_stream
  mark msg =
      if conn.is_inbound
      then set_inbound_stream_id msg conn.stream_id
      else set_outbound_stream msg conn.stream_id

  abbrev pub deliver : Message P → Drained P → Drained P
  deliver msg d = record d { messages = mark msg ∷ d.messages }

module _ {P : Payloads} where
  abbrev pub finished : Drained P → List (Message P) × Outcome ConnectionError (Unit {0})
  finished d = elim d.halt [
    | waits ↦ (
      d.messages,
      if ltb max_buffer (length d.buf) then err buffer_reached_max_size else at_end d.buf,
    )
    | panics ↦ (d.messages, panic)
    | out_of_fuel ↦ (d.messages, panic)
  ]

  abbrev pub continued :
      Drained P
      → List (Message P) × Outcome ConnectionError (Unit {0})
      → List (Message P) × Outcome ConnectionError (Unit {0})
  continued d rest = elim d.halt [
    | waits ↦
        if ltb max_buffer (length d.buf)
        then (d.messages, err buffer_reached_max_size)
        else also d.messages rest
    | panics ↦ (d.messages, panic)
    | out_of_fuel ↦ (d.messages, panic)
  ]

module _ {P : Payloads} (order : ByteOrder) (conn : Connection) where
  -- One turn of the loop that does not read, before the next ones.
  abbrev pub turned :
      Outcome (MessageRegistryError P) (Message P) × List ℕ → (List ℕ → Drained P) → Drained P
  turned (ok msg, rest) next = deliver conn msg (next rest)
  turned (err e, rest) next = record { messages = []; buf = rest; halt = waits }
  turned (panic, rest) next = record { messages = []; buf = rest; halt = panics }

  -- These turns: a message is handed on and the loop goes on, while after an error it reads.
  unfoldable pub drain : ℕ → List ℕ → Drained P
  drain zero buf = record { messages = []; buf = buf; halt = out_of_fuel }
  drain (suc fuel) buf = turned (build_msg order buf) (λ rest. drain fuel rest)

  -- The loop on what the reads bring, each a byte and those behind it, up to the end of the stream. A
  -- turn takes a byte from the buffer at least.
  unfoldable pub async_main :
      List ℕ → List (ℕ × List ℕ) → List (Message P) × Outcome ConnectionError (Unit {0})
  unfolding drain
  async_main buf [] = finished (drain (suc (length buf)) buf)
  async_main buf ((b, bs) ∷ reads) =
      let d = drain (suc (length buf)) buf in continued d (async_main (d.buf ++ (b ∷ bs)) reads)
