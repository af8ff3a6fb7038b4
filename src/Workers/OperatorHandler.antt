-- ===== src/Workers/OperatorHandler.antt =====
-- src/handlers/operator_handler/operator_handler.rs, `OperatorHandler`: the handlers of its messages, over
-- the state of Workers/Instances, and conversions.rs. The operators that it starts are those that the
-- builder returns.
pub mod Rejections
pub mod Offers
use chapterhouse_qe.Common.{
  ℕ, Bool, true, false, ◌||◌, ◌==◌, Option, none, some, List, [], ◌∷◌, if◌then◌else◌, Text, Outcome,
  ok, err, panic,
}
use chapterhouse_qe.External.{External}
use chapterhouse_qe.Messages.Payloads.{
  Codec, Payload, payloads, ok_response, OperatorStatus, OperatorInstanceAvailable, notification,
  notification_response, OperatorInstanceAssignment, assign, assign_accepted_response,
  assign_rejected_response, get_query_id, get_op_instance_id, get_pipeline_id, of_response,
  of_operator_status, of_available, of_assignment,
}
use chapterhouse_qe.Messages.Payloads
use chapterhouse_qe.Messages.Message.{Message}
use chapterhouse_qe.Workers.Actions.{
  Environment, Context, HandlerError, incorrect_message, missing_operator_instance_id,
  missing_query_id, Action, pure, throw, ◌>>=◌, ◌>>◌, ask, update, modify, reply,
}
use chapterhouse_qe.Workers.Requests.{query_completed_request, query_errored_request}
use chapterhouse_qe.Workers.Compute.{TotalOperatorCompute}
use chapterhouse_qe.Workers.Builder.{OperatorTaskRegistry, Started, build_operator}
use chapterhouse_qe.Workers.Instances.{
  OperatorHandlerState, OperatorHandlerStateError, OperatorInstance, running, add_operator_instance,
  operator_instance_complete, operator_instance_error, compute_available,
}

-- `TryFrom<&OperatorInstanceAssignment> for OperatorInstance`.
unfoldable pub try_from :
    {X : External} → OperatorInstanceAssignment X → Option (OperatorInstance X)
try_from (assign query_id op_in_id pipeline_id operator) = some (record {
  status = running;
  config = record {
    id = op_in_id;
    query_id = query_id;
    pipeline_id = pipeline_id;
    operator = operator;
  };
})
try_from (assign_accepted_response query_id op_in_id pipeline_id) = none
try_from (assign_rejected_response query_id op_in_id pipeline_id text) = none

-- Whether the worker has nothing to offer.
unfoldable pub nothing_available : TotalOperatorCompute → Bool
nothing_available c = c.instances == 0 || c.memory_in_mib == 0 || c.cpu_in_thousandths == 0

module _ {X : External} (c : Codec X) where
  abbrev pub Act : Type 0
  Act = Action (payloads c) (OperatorHandlerState X) OperatorHandlerStateError (Unit {0})

  module _ (env : Environment (payloads c)) (reg : OperatorTaskRegistry X) where
    abbrev note_status : ℕ → OperatorStatus → Act
    note_status op_in_id Payloads.complete = update (λ s. operator_instance_complete s op_in_id)
    note_status op_in_id (Payloads.error text) =
        update (λ s. operator_instance_error s op_in_id text)

    abbrev pass_on : ℕ → ℕ → OperatorStatus → Act
    pass_on query_id op_in_id Payloads.complete = query_completed_request c env query_id op_in_id
    pass_on query_id op_in_id (Payloads.error text) =
        query_errored_request c env query_id op_in_id text

    unfoldable pub handle_operator_instance_status_change :
        Message (payloads c) → OperatorStatus → Act
    unfolding operator_instance_complete operator_instance_error reply query_completed_request
        query_errored_request
    handle_operator_instance_status_change msg status_change = elim msg.sent_from_operation_id [
      | none ↦ throw missing_operator_instance_id
      | some op_in_id ↦ elim msg.sent_from_query_id [
        | none ↦ throw missing_query_id
        | some op_query_id ↦ do
          note_status op_in_id status_change
          reply env msg (of_response ok_response)
          pass_on op_query_id op_in_id status_change
      ]
    ]

    abbrev pub answer :
        Message (payloads c)
        → OperatorInstanceAssignment X
        → OperatorInstance X
        → Outcome Text (Started X)
        → Act
    answer msg assignment op_in (ok started) = do
      modify (λ s. add_operator_instance s op_in)
      reply env msg (
          of_assignment (
            assign_accepted_response (get_query_id assignment) (get_op_instance_id assignment)
              (get_pipeline_id assignment)))
    answer msg assignment op_in (err text) = reply env msg (
        of_assignment (
          assign_rejected_response (get_query_id assignment) (get_op_instance_id assignment)
            (get_pipeline_id assignment) text))
    answer msg assignment op_in panic = λ ctx. (panic, ctx)

    unfoldable pub handle_operator_instance_assignment :
        Message (payloads c) → OperatorInstanceAssignment X → Act
    unfolding try_from build_operator add_operator_instance reply get_query_id get_op_instance_id
        get_pipeline_id
    handle_operator_instance_assignment msg assignment = elim (try_from assignment) [
      | none ↦ throw incorrect_message
      | some op_in ↦
          answer msg assignment op_in
            (build_operator reg op_in.config op_in.config.operator.operator_type)
    ]

    unfoldable pub handle_operator_instance_available :
        Message (payloads c) → OperatorInstanceAvailable → Act
    unfolding compute_available nothing_available reply
    handle_operator_instance_available msg notification ctx =
        let comp_avail = compute_available ctx.state in
        (if nothing_available comp_avail
            then pure tt
            else reply env msg (of_available (notification_response comp_avail)))
          ctx
    handle_operator_instance_available msg (notification_response can_accept_up_to) ctx =
        throw incorrect_message ctx

    -- By what a message carries.
    unfoldable pub handle_payload : Message (payloads c) → Payload X → Act
    unfolding handle_operator_instance_available handle_operator_instance_assignment
        handle_operator_instance_status_change
    handle_payload msg (of_available m) = handle_operator_instance_available msg m
    handle_payload msg (of_assignment m) = handle_operator_instance_assignment msg m
    handle_payload msg (of_operator_status m) = handle_operator_instance_status_change msg m
    handle_payload msg _ = pure tt

    unfoldable pub handle_message : Message (payloads c) → Act
    unfolding handle_payload
    handle_message msg = handle_payload msg msg.msg

    -- The loop of `async_main`, over the messages that arrive until it is cancelled: every error is
    -- logged and passed over.
    unfoldable pub async_main :
        List (Message (payloads c))
        → Context (payloads c) (OperatorHandlerState X)
        → Context (payloads c) (OperatorHandlerState X)
    unfolding handle_message
    async_main [] ctx = ctx
    async_main (msg ∷ msgs) ctx = async_main msgs (handle_message msg ctx).1
