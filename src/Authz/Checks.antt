-- ===== src/Authz/Checks.antt =====
-- backend/src/doda/application/authz_service.py: the `authorize_*` functions.
use doda.Base.{String, Bool, true, false, not, ◌&&◌, str_eq}
use doda.Env.{Env, user_actor}
use doda.Db.{M, authorization_error, ◌>>=◌, ◌>>◌, raise_if, asks}
use doda.Domain.Security.{
  CustomerRole, WorkspaceRole, deny, step_up_required, may_propose_actions,
  may_approve_another_actors_action,
}
use doda.Domain.Identity.{AuthStrength}
use doda.Domain.Action.{Action}
use doda.Domain.Task.{Task}
use doda.Authz.{WorkspaceContext, CustomerContext}

abbrev is_admin : WorkspaceRole → Bool
is_admin WorkspaceRole.workspace_admin = true
is_admin WorkspaceRole.member = false

abbrev is_owner : CustomerRole → Bool
is_owner CustomerRole.customer_owner = true
is_owner CustomerRole.member = false
is_owner CustomerRole.auditor = false

abbrev is_owner_or_auditor : CustomerRole → Bool
is_owner_or_auditor CustomerRole.customer_owner = true
is_owner_or_auditor CustomerRole.member = false
is_owner_or_auditor CustomerRole.auditor = true

-- `context.role in (WorkspaceRole.MEMBER, WorkspaceRole.WORKSPACE_ADMIN)`
abbrev is_member_or_admin : WorkspaceRole → Bool
is_member_or_admin WorkspaceRole.workspace_admin = true
is_member_or_admin WorkspaceRole.member = true

-- The actor is the user of the context.
abbrev pub is_own : WorkspaceContext → String → Env → Bool
is_own context actor_id e = str_eq actor_id (user_actor e context.user_id)

unfoldable pub authorize_propose_action : WorkspaceContext → M (Unit {0})
authorize_propose_action context =
    raise_if (not (may_propose_actions context.role)) (authorization_error deny)

abbrev is_aal2 : AuthStrength → Bool
is_aal2 AuthStrength.aal1 = false
is_aal2 AuthStrength.aal2 = true

unfoldable pub authorize_consume_approval : WorkspaceContext → Action → AuthStrength → M (Unit {0})
authorize_consume_approval context action auth_strength = do
  is_self_approval ← asks (is_own context action.actor_id)
  raise_if (not is_self_approval && not (may_approve_another_actors_action context.role))
      (authorization_error deny)
  raise_if (not (is_aal2 auth_strength)) (authorization_error step_up_required)

unfoldable pub authorize_cancel_action : WorkspaceContext → Action → M (Unit {0})
authorize_cancel_action context action = do
  is_own_action ← asks (is_own context action.actor_id)
  raise_if (not is_own_action && not (may_approve_another_actors_action context.role))
      (authorization_error deny)

unfoldable pub authorize_complete_compensation : WorkspaceContext → M (Unit {0})
authorize_complete_compensation context =
    raise_if (not (is_admin context.role)) (authorization_error deny)

unfoldable pub authorize_create_task : WorkspaceContext → M (Unit {0})
authorize_create_task context =
    raise_if (not (is_member_or_admin context.role)) (authorization_error deny)

unfoldable pub authorize_use_chat : WorkspaceContext → M (Unit {0})
authorize_use_chat context =
    raise_if (not (is_member_or_admin context.role)) (authorization_error deny)

unfoldable pub authorize_manage_workspace_members : WorkspaceContext → M (Unit {0})
authorize_manage_workspace_members context =
    raise_if (not (is_admin context.role)) (authorization_error deny)

unfoldable pub authorize_task_mutation : WorkspaceContext → Task → M (Unit {0})
authorize_task_mutation context task = do
  is_own_task ← asks (is_own context task.owner_id)
  raise_if (not is_own_task && not (is_admin context.role)) (authorization_error deny)

unfoldable pub authorize_engage_workspace_kill_switch : WorkspaceContext → M (Unit {0})
authorize_engage_workspace_kill_switch context =
    raise_if (not (is_admin context.role)) (authorization_error deny)

unfoldable pub authorize_engage_customer_kill_switch : CustomerContext → M (Unit {0})
authorize_engage_customer_kill_switch context =
    raise_if (not (is_owner context.role)) (authorization_error deny)

unfoldable pub authorize_manage_customer_members : CustomerContext → M (Unit {0})
authorize_manage_customer_members context =
    raise_if (not (is_owner context.role)) (authorization_error deny)

unfoldable pub authorize_view_customer_audit : CustomerContext → M (Unit {0})
authorize_view_customer_audit context =
    raise_if (not (is_owner_or_auditor context.role)) (authorization_error deny)

unfoldable pub authorize_archive_workspace : WorkspaceContext → M (Unit {0})
authorize_archive_workspace context =
    raise_if (not (is_admin context.role)) (authorization_error deny)

unfoldable pub authorize_manage_workspace_settings : WorkspaceContext → M (Unit {0})
authorize_manage_workspace_settings context =
    raise_if (not (is_admin context.role)) (authorization_error deny)

unfoldable pub authorize_manage_workspace_ai_preference : WorkspaceContext → M (Unit {0})
authorize_manage_workspace_ai_preference context =
    raise_if (not (is_admin context.role)) (authorization_error deny)

unfoldable pub authorize_view_archived_workspaces : CustomerContext → M (Unit {0})
authorize_view_archived_workspaces context =
    raise_if (not (is_owner context.role)) (authorization_error deny)

unfoldable pub authorize_manage_ai_provider_settings : CustomerContext → M (Unit {0})
authorize_manage_ai_provider_settings context =
    raise_if (not (is_owner context.role)) (authorization_error deny)

unfoldable pub authorize_view_ai_budget : CustomerContext → M (Unit {0})
authorize_view_ai_budget context =
    raise_if (not (is_owner_or_auditor context.role)) (authorization_error deny)
