-- ===== src/ActionService/Consume.antt =====
-- `consume_approval`: the checks of an approval, and what a failed one writes before it raises.
pub mod Checks
pub mod Once
use doda.Base.{
  ℕ, String, Bool, true, false, not, Option, none, some, ltb, ◌==◌, str_eq, if◌then◌else◌,
}
use doda.Base.Table.{find, update}
use doda.Json.{Json, text, object, end, field}
use doda.Env.{Env}
use doda.Db.{
  Db, M, Error, approval_not_pending, approval_nonce_mismatch, approval_expired,
  approval_payload_changed, ◌>>=◌, ◌>>◌, pure, raise, raise_if, asks, modify, utcnow,
}
use doda.Domain.Action.{Action, ActionStatus, Approval, ApprovalStatus}
use doda.Outbox.{Announcement, enqueue_outbox_message}
use doda.ActionService.Transition.{apply_transition}

abbrev pub approval_row : ℕ → Db → Option Approval
approval_row id db = find (λ p. p.id == id) db.approvals

abbrev pub is_pending : ApprovalStatus → Bool
is_pending ApprovalStatus.pending = true
is_pending _ = false

-- `approval.status = status`
set_approval_status : Approval → ApprovalStatus → M (Unit {0})
set_approval_status approval status = modify λ db. record db {
  approvals = update (λ p. p.id == approval.id) (λ p. record p { status = status }) db.approvals;
}

-- `approval.status = APPROVED; approval.approver_id = approver_id`
unfoldable pub set_approved : Approval → String → M (Unit {0})
set_approved approval approver_id = modify λ db. record db {
  approvals =
      update (λ p. p.id == approval.id)
        (λ p. record p { status = ApprovalStatus.approved; approver_id = some approver_id })
        db.approvals;
}

abbrev pub approved_message : Env → Action → Approval → Announcement
approved_message e action approval = record {
  customer_id = action.customer_id;
  aggregate_type = "action";
  aggregate_id = action.id;
  event_type = "action.ready.v1";
  payload = object (
      field "action_id" (text (e.str_uuid action.id)) (
        field "tool_name" (text action.tool_name)
          (field "approval_id" (text (e.str_uuid approval.id)) end)));
}

-- The denial of an approval that failed a check: its row and the action's are written, then the
-- call raises.
pub refuse : Action → Approval → String → ApprovalStatus → ActionStatus → Error → M Action
unfolding set_approval_status
refuse action approval approver_id status target error = do
  set_approval_status approval status
  apply_transition action target approver_id none
  raise error

-- The message that follows a granted approval.
unfoldable pub announce_granted : Approval → Action → M Action
announce_granted approval ready = do
  message ← asks (λ e. approved_message e ready approval)
  enqueue_outbox_message message
  pure ready

unfoldable pub grant : Action → Approval → String → M Action
unfolding set_approved announce_granted
grant action approval approver_id = do
  set_approved approval approver_id
  ready ← apply_transition action ActionStatus.ready approver_id none
  announce_granted approval ready

unfoldable pub consume_approval : Action → Approval → String → String → M Action
consume_approval action approval approver_id nonce = do
  raise_if (not (is_pending approval.status)) (approval_not_pending approval.status)
  raise_if (not (str_eq approval.nonce nonce)) approval_nonce_mismatch
  now ← utcnow
  if ltb approval.expires_at now
      then refuse action approval approver_id ApprovalStatus.expired ActionStatus.expired
          approval_expired
      else (if str_eq approval.payload_hash action.payload_hash
          then grant action approval approver_id
          else refuse action approval approver_id ApprovalStatus.denied ActionStatus.rejected
              approval_payload_changed)
