-- ===== src/Api/Actions.antt =====
-- backend/src/doda/api/actions.py. Each handler takes the context that `get_request_context` gives.
use doda.Base.{ℕ, String, Bool, true, false, not, Option, none, some, List, ◌==◌, if◌then◌else◌}
use doda.Json.{Json}
use doda.Env.{user_actor}
use doda.Db.{M, not_found, ◌>>=◌, ◌>>◌, pure, raise, gets, asks}
use doda.Domain.Action.{Action, ActionStatus, RiskLevel, Approval}
use doda.Authz.Checks.{
  authorize_propose_action, authorize_consume_approval, authorize_cancel_action,
  authorize_complete_compensation,
}
use doda.ActionService.Propose.{propose_action, resolve_replay_approval}
use doda.ActionService.Transition.{action_row, request_cancellation, complete_compensation}
use doda.ActionService.Submit.{submit_action_for_execution}
use doda.ActionService.Consume.{approval_row, consume_approval}
use doda.ActionService.Listing.{list_actions_for_workspace}
use doda.Api.{RequestContext}

-- `ProposeActionRequest`, and what else `propose_and_submit_action` reads of the request.
pub record ProposeRequest : Type 0 where
  pub trace_id : ℕ
  pub tool_name : String
  pub risk_level : RiskLevel
  pub payload : Json
  pub task_id : Option ℕ
  pub idempotency_key : String

-- `f"user:{ctx.workspace.user_id}"`
abbrev pub actor_of : RequestContext → M String
actor_of ctx = asks (λ e. user_actor e ctx.workspace.user_id)

unfoldable pub own_action : ℕ → Option Action → M Action
own_action workspace_id none = raise (not_found "action not found")
own_action workspace_id (some action) =
    if not (action.workspace_id == workspace_id)
    then raise (not_found "action not found")
    else pure action

unfoldable pub get_workspace_action : RequestContext → ℕ → M Action
unfolding own_action
get_workspace_action ctx action_id = do
  found ← gets (action_row action_id)
  own_action ctx.workspace.workspace_id found

-- What follows `propose_action`.
unfoldable pub submit_or_replay : String → Action × Bool → M (Action × Option Approval)
submit_or_replay actor_id (action, true) = submit_action_for_execution action actor_id
submit_or_replay actor_id (action, false) = do
  approval ← resolve_replay_approval action actor_id
  pure (action, approval)

-- The proposal, once the caller is authorized.
unfoldable pub propose_as : ProposeRequest → RequestContext → String → M (Action × Option Approval)
unfolding submit_or_replay
propose_as body ctx actor_id = do
  proposed ← propose_action (record {
    customer_id = ctx.workspace.customer_id;
    workspace_id = ctx.workspace.workspace_id;
    trace_id = body.trace_id;
    actor_id = actor_id;
    tool_name = body.tool_name;
    risk_level = body.risk_level;
    payload = body.payload;
    idempotency_key = body.idempotency_key;
    task_id = body.task_id;
  })
  submit_or_replay actor_id proposed

unfoldable pub propose_and_submit_action :
    ProposeRequest → RequestContext → M (Action × Option Approval)
unfolding propose_as
propose_and_submit_action body ctx = do
  authorize_propose_action ctx.workspace
  actor_id ← actor_of ctx
  propose_as body ctx actor_id

unfoldable pub get_action : ℕ → RequestContext → M Action
get_action action_id ctx = get_workspace_action ctx action_id

unfoldable pub list_workspace_actions : Option ActionStatus → ℕ → RequestContext → M (List Action)
list_workspace_actions status limit ctx =
    list_actions_for_workspace ctx.workspace.workspace_id status limit

-- The consumption, once both rows are there.
unfoldable pub consume_as : String → RequestContext → Approval → Action → M Action
consume_as nonce ctx approval action = do
  authorize_consume_approval ctx.workspace action ctx.auth_strength
  approver_id ← actor_of ctx
  consume_approval action approval approver_id nonce

-- The rest of `consume_action_approval`, by the approval's row.
unfoldable pub consume_found : String → RequestContext → Option Approval → M Action
unfolding consume_as
consume_found nonce ctx none = raise (not_found "approval not found")
consume_found nonce ctx (some approval) =
    if not (approval.customer_id == ctx.workspace.customer_id)
    then raise (not_found "approval not found")
    else (do
      action ← get_workspace_action ctx approval.action_id
      consume_as nonce ctx approval action)

unfoldable pub consume_action_approval : ℕ → String → RequestContext → M Action
unfolding consume_found
consume_action_approval approval_id nonce ctx = do
  found ← gets (approval_row approval_id)
  consume_found nonce ctx found

unfoldable pub cancel_action : ℕ → RequestContext → M Action
cancel_action action_id ctx = do
  action ← get_workspace_action ctx action_id
  authorize_cancel_action ctx.workspace action
  actor_id ← actor_of ctx
  request_cancellation action actor_id

unfoldable pub complete_action_compensation : ℕ → ActionStatus → RequestContext → M Action
complete_action_compensation action_id outcome ctx = do
  action ← get_workspace_action ctx action_id
  authorize_complete_compensation ctx.workspace
  actor_id ← actor_of ctx
  complete_compensation action outcome actor_id
