-- ===== src/Workers/Exchanges/Serving.antt =====
-- A request for a record, from the exchange's reply to what the operator reads in it.
use chapterhouse_qe.Common.{
  ℕ, ◌≡◌, Bool, true, false, Option, none, some, [], ◌∷◌, ◌++◌, Outcome, ok,
}
use chapterhouse_qe.External.{External}
use chapterhouse_qe.Exchange.Pool.{Delivery}
use chapterhouse_qe.Exchange.Operator.{ExchangeOperator, ExchangeOperatorError}
use chapterhouse_qe.Exchange.Operator
use chapterhouse_qe.Messages.Payloads.{Codec, payloads}
use chapterhouse_qe.Messages.Message.{Message}
use chapterhouse_qe.Messages.Message
use chapterhouse_qe.Workers.Actions.{Environment, Context, HandlerError, pure, and_then}
use chapterhouse_qe.Workers.Records.{
  GetNextRecordResponse, next, none_left, none_available, read_next_record,
}

module _ {X : External} where
  -- What an operator is told of what the pool gives.
  abbrev pub told : Bool → Option (Delivery X) → GetNextRecordResponse X
  told received_all (some (r, batch, aliases)) = next r batch aliases
  told true none = none_left
  told false none = none_available

  module _ (c : Codec X) (env : Environment (payloads c)) (clock : ℕ → ℕ) where
    -- One reply goes out, which answers the request and reads as said.
    abbrev pub Replies :
        Message (payloads c)
        → GetNextRecordResponse X
        → Context (payloads c) (ExchangeOperator X)
        → Outcome (HandlerError ExchangeOperatorError) Bool
          × Context (payloads c) (ExchangeOperator X)
        → Type 0
    Replies msg response before after =
        (m : Message (payloads c)) × (after.0 ≡ ok true)
        × (after.1.sent ≡ before.sent ++ (m ∷ []))
        × (m.request_id ≡ msg.request_id)
        × (read_next_record m.msg ≡ ok response)

    abbrev then_on :
        Outcome (HandlerError ExchangeOperatorError) (Unit {0})
          × Context (payloads c) (ExchangeOperator X)
        → Outcome (HandlerError ExchangeOperatorError) Bool
          × Context (payloads c) (ExchangeOperator X)
    then_on r = and_then (and_then r (λ done. pure true)) (λ routed. pure true)
