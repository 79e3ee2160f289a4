-- ===== src/ActionService/Transition.antt =====
-- `apply_transition`, and the operations that are one call of it.
pub mod Cancel
pub mod Effect
pub mod Invariants
use doda.Base.{
  ℕ, String, Bool, true, false, not, ◌&&◌, ◌||◌, Option, none, some, List, ◌==◌, is_none,
  if◌then◌else◌,
}
use doda.Base.Table.{find, update}
use doda.Json.{Json, null, text, object, end, field}
use doda.Env.{Env}
use doda.Db.{
  Db, State, M, Error, missing_provider_receipt, invalid_action_transition,
  invalid_compensation_outcome, action_not_cancellable, ◌>>=◌, ◌>>◌, pure, raise, raise_if, gets,
  asks, modify,
}
use doda.Domain.Action.{Action, ActionStatus}
use doda.Domain.Action.Machine.{Outcome, moved, invalid, transition}
use doda.Domain.Notification.{pending_approval, failed_action}
use doda.Audit.{Entry, record_audit_event}
use doda.Notification.{Notice, create_notification}
use doda.ActionService.Propose.{risk_value}

-- `status.value`
abbrev pub status_value : ActionStatus → String
status_value ActionStatus.draft = "DRAFT"
status_value ActionStatus.validating = "VALIDATING"
status_value ActionStatus.awaiting_approval = "AWAITING_APPROVAL"
status_value ActionStatus.ready = "READY"
status_value ActionStatus.running = "RUNNING"
status_value ActionStatus.succeeded = "SUCCEEDED"
status_value ActionStatus.failed = "FAILED"
status_value ActionStatus.retrying = "RETRYING"
status_value ActionStatus.compensating = "COMPENSATING"
status_value ActionStatus.compensated = "COMPENSATED"
status_value ActionStatus.denied = "DENIED"
status_value ActionStatus.rejected = "REJECTED"
status_value ActionStatus.expired = "EXPIRED"
status_value ActionStatus.cancelled = "CANCELLED"

-- `f"action.{target.value.lower()}.v1"`
abbrev pub transition_event : ActionStatus → String
transition_event ActionStatus.draft = "action.draft.v1"
transition_event ActionStatus.validating = "action.validating.v1"
transition_event ActionStatus.awaiting_approval = "action.awaiting_approval.v1"
transition_event ActionStatus.ready = "action.ready.v1"
transition_event ActionStatus.running = "action.running.v1"
transition_event ActionStatus.succeeded = "action.succeeded.v1"
transition_event ActionStatus.failed = "action.failed.v1"
transition_event ActionStatus.retrying = "action.retrying.v1"
transition_event ActionStatus.compensating = "action.compensating.v1"
transition_event ActionStatus.compensated = "action.compensated.v1"
transition_event ActionStatus.denied = "action.denied.v1"
transition_event ActionStatus.rejected = "action.rejected.v1"
transition_event ActionStatus.expired = "action.expired.v1"
transition_event ActionStatus.cancelled = "action.cancelled.v1"

abbrev pub action_row : ℕ → Db → Option Action
action_row id db = find (λ a. a.id == id) db.actions

abbrev pub row_or : Action → Option Action → Action
row_or stale none = stale
row_or stale (some fresh) = fresh

-- The lock, which refreshes the object from its row.
unfoldable pub reload : Action → M Action
reload action = gets (λ db. row_or action (action_row action.id db))

abbrev pub needs_receipt : ActionStatus → Bool
needs_receipt ActionStatus.succeeded = true
needs_receipt _ = false

abbrev receipt_json : Option Json → Json
receipt_json none = null
receipt_json (some r) = r

-- The notification that a transition brings, by its target.
pub notify_target : ActionStatus → Action → M (Unit {0})
notify_target ActionStatus.awaiting_approval action = do
  create_notification (record {
    customer_id = action.customer_id;
    workspace_id = some action.workspace_id;
    recipient_id = action.actor_id;
    notification_type = pending_approval;
    reference_type = "action";
    reference_id = action.id;
    safe_metadata = object (
        field "tool_name" (text action.tool_name)
          (field "risk_level" (text (risk_value action.risk_level)) end));
  })
  pure tt
notify_target ActionStatus.failed action = do
  create_notification (record {
    customer_id = action.customer_id;
    workspace_id = some action.workspace_id;
    recipient_id = action.actor_id;
    notification_type = failed_action;
    reference_type = "action";
    reference_id = action.id;
    safe_metadata = object (field "tool_name" (text action.tool_name) end);
  })
  pure tt
notify_target _ action = pure tt

abbrev transition_entry : Action → String → String → Json → Entry
transition_entry action actor_id event_type metadata = record {
  customer_id = action.customer_id;
  workspace_id = some action.workspace_id;
  trace_id = action.trace_id;
  actor_id = actor_id;
  event_type = event_type;
  safe_metadata = metadata;
}

-- What follows the call of `transition` on the refreshed action.
pub complete_transition : Action → String → Option Json → Outcome → M Action
unfolding notify_target
complete_transition action actor_id receipt (invalid current target) = do
  shown ← asks (λ e. e.str_uuid action.id)
  record_audit_event (
      transition_entry action actor_id "action.transition_rejected.v1" (
        object (
          field "action_id" (text shown) (
            field "from" (text (status_value current))
              (field "to" (text (status_value target)) end)))))
  raise (invalid_action_transition current target)
complete_transition action actor_id receipt (moved target) = do
  modify (λ db. record db {
    actions = update (λ a. a.id == action.id) (λ a. record a { status = target }) db.actions;
  })
  shown ← asks (λ e. e.str_uuid action.id)
  record_audit_event (
      transition_entry action actor_id (transition_event target) (
        object (
          field "action_id" (text shown) (
            field "from" (text (status_value action.status)) (
              field "to" (text (status_value target))
                (field "provider_receipt" (receipt_json receipt) end))))))
  notify_target target (record action { status = target })
  pure (record action { status = target })

unfoldable pub apply_transition : Action → ActionStatus → String → Option Json → M Action
unfolding complete_transition reload
apply_transition action target actor_id receipt = do
  raise_if (needs_receipt target && is_none receipt) (missing_provider_receipt action.id)
  fresh ← reload action
  complete_transition fresh actor_id receipt (transition fresh.status target)

cancel_from : ActionStatus → Action → String → M Action
cancel_from ActionStatus.ready action actor_id =
    apply_transition action ActionStatus.cancelled actor_id none
cancel_from ActionStatus.running action actor_id =
    apply_transition action ActionStatus.compensating actor_id none
cancel_from status action actor_id = raise (action_not_cancellable action.id status)

unfoldable pub request_cancellation : Action → String → M Action
unfolding cancel_from
request_cancellation action actor_id = cancel_from action.status action actor_id

complete_with : ActionStatus → Action → String → M Action
complete_with ActionStatus.compensated action actor_id =
    apply_transition action ActionStatus.compensated actor_id none
complete_with ActionStatus.failed action actor_id =
    apply_transition action ActionStatus.failed actor_id none
complete_with outcome action actor_id = raise (invalid_compensation_outcome outcome)

unfoldable pub complete_compensation : Action → ActionStatus → String → M Action
unfolding complete_with
complete_compensation action outcome actor_id = complete_with outcome action actor_id
