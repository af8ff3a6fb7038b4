-- ===== src/Exchange/Operator/Draining.antt =====
-- When an exchange tells a consumer that no record is left.
use chapterhouse_qe.Common.{
  ℕ, ◌≡◌, refl, ◌∙◌, Bool, true, false, not, none, some, List, [], ◌∷◌, any,
}
use chapterhouse_qe.Common.Map
use chapterhouse_qe.External.{External}
use chapterhouse_qe.Exchange.Pool.{operator_completed_record_processing}
use chapterhouse_qe.Exchange.Pool
use chapterhouse_qe.Exchange.Pool.Calls.{Call, adds, gets, completes, step}
use chapterhouse_qe.Exchange.Pool.Broadcast.{run}
use chapterhouse_qe.Exchange.Operator.{
  ExchangeOperator, ProducerOperatorStatus, is_complete, Request, send_record, next_record,
  completed_record, operator_complete, handle_send_record_request, handle_get_next_record_request,
  handle_operator_completed_record_processing_request, handle_operator_status_change, route_msg,
}

-- A producer that has not reported its end.
abbrev pub any_running : List ProducerOperatorStatus → Bool
any_running states = any (λ item. not (is_complete item.status)) states

module _ {X : External} where
  -- The handlers, one request after the other, each with its time.
  unfoldable pub serve : ExchangeOperator X → List (Request X × ℕ) → ExchangeOperator X
  unfolding route_msg
  serve s [] = s
  serve s (r ∷ rs) = serve (route_msg s (r.0) (r.1)).0 rs

  -- The calls of the pool that a request makes.
  abbrev pub calls_of_request : Request X → ℕ → List (Call X) → List (Call X)
  calls_of_request (send_record r batch aliases) now rest = adds r batch aliases ∷ rest
  calls_of_request (next_record op none) now rest = rest
  calls_of_request (next_record op (some inst)) now rest = gets op inst now ∷ rest
  calls_of_request (completed_record op r) now rest = completes op r ∷ rest
  calls_of_request (operator_complete op) now rest = rest

  abbrev pub calls_of : List (Request X × ℕ) → List (Call X)
  calls_of [] = []
  calls_of (r ∷ rs) = calls_of_request (r.0) (r.1) (calls_of rs)

  route_msg_pool :
      (s : ExchangeOperator X) (r : Request X) (now : ℕ) (cs : List (Call X))
      → run (route_msg s r now).0.record_pool cs ≡ run s.record_pool (calls_of_request r now cs)
  unfolding route_msg handle_send_record_request handle_get_next_record_request
      handle_operator_completed_record_processing_request handle_operator_status_change run step
  route_msg_pool s (send_record r batch aliases) now cs = refl
  route_msg_pool s (next_record op none) now cs = refl
  route_msg_pool s (next_record op (some inst)) now cs = refl
  route_msg_pool s (completed_record op r) now cs = refl
  route_msg_pool s (operator_complete op) now cs = refl

  pub serve_pool :
      (s : ExchangeOperator X) (rs : List (Request X × ℕ))
      → (serve s rs).record_pool ≡ run s.record_pool (calls_of rs)
  unfolding serve run
  serve_pool s [] = refl
  serve_pool s (r ∷ rs) =
      serve_pool (route_msg s (r.0) (r.1)).0 rs ∙ route_msg_pool s (r.0) (r.1) (calls_of rs)

  -- Once the operator holds that all data has come, every producer has reported its end.
  abbrev IsHonest : ExchangeOperator X → Type 0
  IsHonest s =
      s.received_all_data_from_producers ≡ true
      → any_running s.inbound_producer_operator_states ≡ false
