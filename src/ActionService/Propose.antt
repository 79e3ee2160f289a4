-- ===== src/ActionService/Propose.antt =====
-- `propose_action` and `resolve_replay_approval`.
pub mod Idempotence
use doda.Base.{
  ℕ, String, Bool, true, false, not, ◌&&◌, ◌||◌, Option, none, some, List, ltb, ◌==◌, str_eq,
  if◌then◌else◌,
}
use doda.Base.Table.{find, select, insert, order_by}
use doda.Json.{Json, text, object, end, field}
use doda.Env.{Env}
use doda.Db.{
  Db, M, assertion_error, ◌>>=◌, ◌>>◌, pure, gets, asks, some_or_raise, modify, utcnow, uuid4,
}
use doda.Domain.Action.{Action, ActionStatus, RiskLevel, r0, r1, r2, r3, r4, r5, Approval}
use doda.Domain.Action.Policy.{enforce_minimum_risk_level}
use doda.Hashing.{hash_payload}
use doda.Audit.{record_audit_event}
use doda.KillSwitch.{assert_not_killed}

-- The keyword arguments of `propose_action`.
pub record Proposal : Type 0 where
  pub customer_id : ℕ
  pub workspace_id : ℕ
  pub trace_id : ℕ
  pub actor_id : String
  pub tool_name : String
  pub risk_level : RiskLevel
  pub payload : Json
  pub idempotency_key : String
  pub task_id : Option ℕ

-- `risk_level.value`
abbrev pub risk_value : RiskLevel → String
risk_value r0 = "R0"
risk_value r1 = "R1"
risk_value r2 = "R2"
risk_value r3 = "R3"
risk_value r4 = "R4"
risk_value r5 = "R5"

-- The columns of the unique constraint `uq_action_workspace_idempotency_key`.
abbrev pub has_key : ℕ → ℕ → String → Action → Bool
has_key customer_id workspace_id key a =
    a.customer_id == customer_id && a.workspace_id == workspace_id && str_eq a.idempotency_key key

abbrev pub action_with_key : ℕ → ℕ → String → Db → Option Action
action_with_key customer_id workspace_id key db =
    find (has_key customer_id workspace_id key) db.actions

-- The insertion, once the unique constraint is tested: a new row, or the row that is there.
add_action : Action → Option Action → M (Action × Bool)
add_action ours (some conflicting) = do
  found ← gets (action_with_key ours.customer_id ours.workspace_id ours.idempotency_key)
  existing ← some_or_raise found assertion_error
  pure (existing, false)
add_action ours none = do
  modify (λ db. record db { actions = insert ours db.actions })
  shown ← asks (λ e. e.str_uuid ours.id)
  record_audit_event (record {
    customer_id = ours.customer_id;
    workspace_id = some ours.workspace_id;
    trace_id = ours.trace_id;
    actor_id = ours.actor_id;
    event_type = "action.proposed.v1";
    safe_metadata = object (
        field "action_id" (text shown) (
          field "tool_name" (text ours.tool_name)
            (field "risk_level" (text (risk_value ours.risk_level)) end)));
  })
  pure (ours, true)

unfoldable pub propose_action : Proposal → M (Action × Bool)
unfolding add_action
propose_action p = do
  assert_not_killed p.customer_id p.workspace_id
  payload_hash ← asks (λ e. hash_payload e p.payload)
  id ← uuid4
  created_at ← utcnow
  conflicting ← gets (action_with_key p.customer_id p.workspace_id p.idempotency_key)
  add_action
      (record {
        id = id;
        created_at = created_at;
        customer_id = p.customer_id;
        workspace_id = p.workspace_id;
        trace_id = p.trace_id;
        task_id = p.task_id;
        actor_id = p.actor_id;
        tool_name = p.tool_name;
        risk_level = enforce_minimum_risk_level p.tool_name p.risk_level;
        payload = p.payload;
        payload_hash = payload_hash;
        idempotency_key = p.idempotency_key;
        status = ActionStatus.draft;
      })
      conflicting

-- `ORDER BY created_at DESC`
abbrev newer : Approval → Approval → Bool
newer x y = ltb y.created_at x.created_at

abbrev is_awaiting : ActionStatus → Bool
is_awaiting ActionStatus.awaiting_approval = true
is_awaiting _ = false

unfoldable pub resolve_replay_approval : Action → String → M (Option Approval)
resolve_replay_approval action actor_id =
    if not (is_awaiting action.status) || not (str_eq action.actor_id actor_id)
    then pure none
    else gets (λ db.
      find (λ a. true) (order_by newer (select (λ a. a.action_id == action.id) db.approvals)))
