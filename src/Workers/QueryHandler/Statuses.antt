-- ===== src/Workers/QueryHandler/Statuses.antt =====
-- The status of a query in a query handler that runs.
use chapterhouse_qe.Common.{ℕ, ◌≡◌, sym, subst, Option, none, some, List, Text}
use chapterhouse_qe.External.{External}
use chapterhouse_qe.Messages.Payloads.{Codec, payloads}
use chapterhouse_qe.Messages.Message.{Message}
use chapterhouse_qe.Workers.Actions.{Environment, Context}
use chapterhouse_qe.Workers.Queries.{QueryHandlerState, Status, queued, running, error, new}
use chapterhouse_qe.Workers.Queries.Progress.{◌⟶◌, ◌⟶*◌, here, then, create, start, fail, status_of}
use chapterhouse_qe.Workers.Planned.{Outside}
use chapterhouse_qe.Workers.QueryHandler.{async_main}
use chapterhouse_qe.Workers.QueryHandler.Progress.{async_main-Progresses}

-- What a status may be, and `none` is that of an id without a query.
pub data IsOpen : Option Status → Type 0 where
  absent : IsOpen none
  waits : IsOpen (some queued)
  runs : IsOpen (some running)
  failed : (text : Text) → IsOpen (some (error text))

⟶-IsOpen : {o p : Option Status} → o ⟶ p → IsOpen p
⟶-IsOpen create = waits
⟶-IsOpen start = runs
⟶-IsOpen (fail {text = text}) = failed text

⟶*-IsOpen : {o p : Option Status} → o ⟶* p → IsOpen o → IsOpen p
⟶*-IsOpen here h = h
⟶*-IsOpen (then e rest) h = ⟶*-IsOpen rest (⟶-IsOpen e)

module _ {X : External} (c : Codec X) (env : Environment (payloads c)) (out : Outside X) where
  -- Whatever messages come and however the calls go that a query handler makes for them, the status of
  -- every query stays or goes on from none to queued, from queued to running, and from any to an error.
  pub async_main-Progress :
      (msgs : List (Message (payloads c))) (ctx : Context (payloads c) (QueryHandlerState X))
      (id : ℕ)
      → status_of ctx.state id ⟶* status_of (async_main c env out msgs ctx).1.state id
  async_main-Progress msgs ctx id = async_main-Progresses c env out msgs ctx id

  -- A query handler that starts without queries, whatever messages come and however its calls go, has no
  -- query that is complete: each is queued, runs or has failed.
  pub async_main-IsOpen :
      (msgs : List (Message (payloads c))) (ctx : Context (payloads c) (QueryHandlerState X))
      (id : ℕ)
      → ctx.state ≡ new
      → IsOpen (status_of (async_main c env out msgs ctx).1.state id)
  unfolding new
  async_main-IsOpen msgs ctx id h =
      ⟶*-IsOpen (async_main-Progress msgs ctx id)
        (subst (λ s. IsOpen (status_of s id)) (sym h) absent)
