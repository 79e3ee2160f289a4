-- ===== src/ActionService/Submit.antt =====
-- `validate_action`, `request_approval` and `submit_action_for_execution`.
pub mod Routing
use doda.Base.{ℕ, ◌+◌, String, Bool, true, false, Option, none, some, if◌then◌else◌}
use doda.Base.Table.{insert}
use doda.Json.{Json, text, object, end, field}
use doda.Env.{Env}
use doda.Db.{
  Db, M, Error, approval_wrong_status, ◌>>=◌, ◌>>◌, pure, raise, gets, asks, modify, utcnow, uuid4,
  token_urlsafe,
}
use doda.Domain.Action.{
  Action, ActionStatus, auto_approved, Approval, ApprovalStatus, default_approval_ttl,
}
use doda.Outbox.{Announcement, enqueue_outbox_message}
use doda.ActionService.Transition.{apply_transition}

-- The message that lets a worker pick up the action.
abbrev pub ready_message : Env → Action → Announcement
ready_message e action = record {
  customer_id = action.customer_id;
  aggregate_type = "action";
  aggregate_id = action.id;
  event_type = "action.ready.v1";
  payload = object (
      field "action_id" (text (e.str_uuid action.id))
        (field "tool_name" (text action.tool_name) end));
}

unfoldable pub announce_ready : Action → M Action
announce_ready ready = do
  message ← asks (λ e. ready_message e ready)
  enqueue_outbox_message message
  pure ready

-- Where a validated action goes, by its risk.
unfoldable pub route : String → Action → M Action
unfolding announce_ready
route actor_id validating =
    if auto_approved validating.risk_level
    then (do
      ready ← apply_transition validating ActionStatus.ready actor_id none
      announce_ready ready)
    else apply_transition validating ActionStatus.awaiting_approval actor_id none

unfoldable pub validate_action : Action → String → M Action
unfolding route
validate_action action actor_id = do
  validating ← apply_transition action ActionStatus.validating actor_id none
  route actor_id validating

abbrev pub is_awaiting : ActionStatus → Bool
is_awaiting ActionStatus.awaiting_approval = true
is_awaiting _ = false

unfoldable pub request_approval : Action → M Approval
request_approval action =
    if is_awaiting action.status
    then (do
      nonce ← token_urlsafe
      now ← utcnow
      id ← uuid4
      created_at ← utcnow
      let approval : Approval = record {
        id = id;
        created_at = created_at;
        customer_id = action.customer_id;
        action_id = action.id;
        payload_hash = action.payload_hash;
        approver_id = none;
        nonce = nonce;
        status = ApprovalStatus.pending;
        expires_at = now + default_approval_ttl;
      }
      modify (λ db. record db { approvals = insert approval db.approvals })
      pure approval)
    else raise (approval_wrong_status action.status)

unfoldable pub ask_approval : Action → M (Action × Option Approval)
ask_approval submitted =
    if is_awaiting submitted.status
    then (do approval ← request_approval submitted; pure (submitted, some approval))
    else pure (submitted, none)

unfoldable pub submit_action_for_execution : Action → String → M (Action × Option Approval)
unfolding ask_approval
submit_action_for_execution action actor_id = do
  submitted ← validate_action action actor_id
  ask_approval submitted
