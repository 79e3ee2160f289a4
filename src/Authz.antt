-- ===== src/Authz.antt =====
-- backend/src/doda/application/authz_service.py: from a session's user to a context with a role,
-- and from the context to the operation.
pub mod Context
pub mod Approval
pub mod Checks
use doda.Base.{
  ℕ, String, Bool, true, false, not, ◌&&◌, ◌||◌, Option, none, some, List, [], ◌∷◌, ◌==◌, str_eq,
  is_none, if◌then◌else◌,
}
use doda.Base.Table.{find}
use doda.Env.{Env, user_actor}
use doda.Db.{
  Db, M, Error, authorization_error, value_error, ◌>>=◌, ◌>>◌, pure, raise, raise_if, gets, asks,
}
use doda.Domain.Security.{
  CustomerRole, StoredRole, WorkspaceRole, Decision, deny, step_up_required, may_propose_actions,
  may_approve_another_actors_action,
}
use doda.Domain.Identity.{AuthStrength}
use doda.Domain.Tenant.{Customer, CustomerMembership, Workspace, WorkspaceMembership}
use doda.Domain.Action.{Action}
use doda.Domain.Task.{Task}

pub record WorkspaceContext : Type 0 where
  pub customer_id : ℕ
  pub workspace_id : ℕ
  pub user_id : ℕ
  pub role : WorkspaceRole

pub record CustomerContext : Type 0 where
  pub customer_id : ℕ
  pub user_id : ℕ
  pub role : CustomerRole

abbrev pub is_owner_role : StoredRole → Bool
is_owner_role (StoredRole.role CustomerRole.customer_owner) = true
is_owner_role (StoredRole.role CustomerRole.member) = false
is_owner_role (StoredRole.role CustomerRole.auditor) = false
is_owner_role StoredRole.platform_owner = false

abbrev pub is_auditor_role : StoredRole → Bool
is_auditor_role (StoredRole.role CustomerRole.customer_owner) = false
is_auditor_role (StoredRole.role CustomerRole.member) = false
is_auditor_role (StoredRole.role CustomerRole.auditor) = true
is_auditor_role StoredRole.platform_owner = false

-- The membership of a user in a customer.
abbrev pub membership_of : ℕ → ℕ → Db → Option CustomerMembership
membership_of user_id customer_id db =
    find (λ m. m.customer_id == customer_id && m.user_id == user_id) db.customer_memberships

abbrev owner_if_found : Option CustomerMembership → Bool
owner_if_found none = false
owner_if_found (some m) = is_owner_role m.role

-- `_is_customer_owner`
abbrev pub is_customer_owner : ℕ → ℕ → Db → Bool
is_customer_owner user_id customer_id db = owner_if_found (membership_of user_id customer_id db)

-- The first row of the join of the workspace's memberships with the user's customer memberships.
abbrev pub joined_row :
    ℕ
    → List WorkspaceMembership
    → List CustomerMembership
    → Option (WorkspaceMembership × StoredRole)
joined_row user_id [] members = none
joined_row user_id (w ∷ ws) members =
    elim (find (λ m. m.id == w.customer_membership_id && m.user_id == user_id) members) [
      | none ↦ joined_row user_id ws members
      | some m ↦ some (w, m.role)
    ]

abbrev pub in_workspace : ℕ → List WorkspaceMembership → List WorkspaceMembership
in_workspace workspace_id [] = []
in_workspace workspace_id (w ∷ ws) =
    let rest = in_workspace workspace_id ws in
    if w.workspace_id == workspace_id then w ∷ rest else rest

abbrev pub workspace_row : ℕ → ℕ → Db → Option (WorkspaceMembership × StoredRole)
workspace_row user_id workspace_id db =
    joined_row user_id (in_workspace workspace_id db.workspace_memberships) db.customer_memberships

abbrev pub workspace_of : ℕ → Db → Option Workspace
workspace_of workspace_id db = find (λ w. w.id == workspace_id) db.workspaces

-- The rest of `get_workspace_context`, by the joined row.
member_context : ℕ → ℕ → ℕ → Option (WorkspaceMembership × StoredRole) → M WorkspaceContext
member_context customer_id user_id workspace_id none = raise (authorization_error deny)
member_context customer_id user_id workspace_id (some (membership, customer_role)) =
    if is_auditor_role customer_role
    then raise (authorization_error deny)
    else pure (record {
      customer_id = customer_id;
      workspace_id = workspace_id;
      user_id = user_id;
      role = membership.role;
    })

open_workspace_context : ℕ → ℕ → Bool → Option Workspace → M WorkspaceContext
unfolding member_context
open_workspace_context user_id workspace_id allow_archived none = raise (authorization_error deny)
open_workspace_context user_id workspace_id allow_archived (some workspace) = do
  raise_if (not (is_none workspace.archived_at) && not allow_archived) (authorization_error deny)
  is_owner ← gets (is_customer_owner user_id workspace.customer_id)
  row ← gets (workspace_row user_id workspace_id)
  if is_owner
      then pure (record {
        customer_id = workspace.customer_id;
        workspace_id = workspace_id;
        user_id = user_id;
        role = WorkspaceRole.workspace_admin;
      })
      else member_context workspace.customer_id user_id workspace_id row

unfoldable pub get_workspace_context : ℕ → ℕ → Bool → M WorkspaceContext
unfolding open_workspace_context
get_workspace_context user_id workspace_id allow_archived = do
  workspace ← gets (workspace_of workspace_id)
  open_workspace_context user_id workspace_id allow_archived workspace

-- `CustomerRole(membership.role)`
abbrev parse_role : StoredRole → M CustomerRole
parse_role (StoredRole.role r) = pure r
parse_role StoredRole.platform_owner = raise value_error

customer_member_context : ℕ → ℕ → Option CustomerMembership → M CustomerContext
customer_member_context user_id customer_id none = raise (authorization_error deny)
customer_member_context user_id customer_id (some membership) = do
  role ← parse_role membership.role
  pure (record { customer_id = customer_id; user_id = user_id; role = role })

unfoldable pub get_customer_context : ℕ → ℕ → M CustomerContext
unfolding customer_member_context
get_customer_context user_id customer_id = do
  customer ← gets (λ db. find (λ c. c.id == customer_id) db.customers)
  raise_if (is_none customer) (authorization_error deny)
  membership ← gets (membership_of user_id customer_id)
  customer_member_context user_id customer_id membership
