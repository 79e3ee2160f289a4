-- ===== src/Workspaces.antt =====
-- backend/src/doda/application/workspace_service.py, but for the listings of members and of a
-- user's workspaces.
pub mod Archive
pub mod Members
use doda.Base.{
  ℕ, String, Bool, true, false, not, ◌&&◌, Option, none, some, List, ltb, ◌==◌, is_none,
}
use doda.Base.Table.{find, select, update, delete, insert, order_by}
use doda.Json.{Json, null, text, object, end, field}
use doda.Env.{Env}
use doda.Db.{
  Db, M, workspace_membership_error, duplicate_workspace_membership, ◌>>=◌, ◌>>◌, pure, raise_if,
  gets, asks, modify, utcnow, uuid4,
}
use doda.Domain.Security.{WorkspaceRole}
use doda.Domain.Tenant.{
  CustomerMembership, Workspace, WorkspaceMembership, WorkspaceTenantIndex,
  WorkspaceLanguageSetting,
}
use doda.Audit.{Entry, record_audit_event}
use doda.Authz.{is_auditor_role}

-- The audit event of the caller, with a fresh trace id.
audit_workspace : ℕ → ℕ → String → String → (Env → Json) → M (Unit {0})
audit_workspace customer_id workspace_id actor_id event_type metadata = do
  trace_id ← uuid4
  safe_metadata ← asks metadata
  record_audit_event (record {
    customer_id = customer_id;
    workspace_id = some workspace_id;
    trace_id = trace_id;
    actor_id = actor_id;
    event_type = event_type;
    safe_metadata = safe_metadata;
  })
  pure tt

unfoldable pub create_workspace : ℕ → String → String → M Workspace
unfolding audit_workspace
create_workspace customer_id name actor_id = do
  id ← uuid4
  created_at ← utcnow
  let workspace : Workspace = record {
    id = id;
    created_at = created_at;
    customer_id = customer_id;
    name = name;
    archived_at = none;
  }
  modify (λ db. record db {
    workspaces = insert workspace db.workspaces;
    workspace_tenant_index =
        insert (record { workspace_id = id; customer_id = customer_id }) db.workspace_tenant_index;
  })
  audit_workspace customer_id id actor_id "workspace.created.v1"
      (λ e. object (field "workspace_id" (text (e.str_uuid id)) (field "name" (text name) end)))
  pure workspace

-- `membership.role`, a text.
abbrev role_value : WorkspaceRole → String
role_value WorkspaceRole.workspace_admin = "workspace_admin"
role_value WorkspaceRole.member = "member"

-- The columns of the unique constraint on `workspace_memberships`.
abbrev pub membership_in : ℕ → ℕ → Db → Option WorkspaceMembership
membership_in customer_membership_id workspace_id db =
    find (λ m. m.customer_membership_id == customer_membership_id && m.workspace_id == workspace_id)
      db.workspace_memberships

abbrev pub added_metadata : ℕ → ℕ → WorkspaceRole → Env → Json
added_metadata workspace_id id role e = object (
    field "workspace_id" (text (e.str_uuid workspace_id)) (
      field "workspace_membership_id" (text (e.str_uuid id))
        (field "role" (text (role_value role)) end)))

unfoldable pub add_workspace_member :
    Workspace → CustomerMembership → WorkspaceRole → String → M WorkspaceMembership
unfolding audit_workspace
add_workspace_member workspace customer_membership role actor_id = do
  raise_if (not (customer_membership.customer_id == workspace.customer_id))
      workspace_membership_error
  raise_if (is_auditor_role customer_membership.role) workspace_membership_error
  id ← uuid4
  created_at ← utcnow
  conflicting ← gets (membership_in customer_membership.id workspace.id)
  raise_if (not (is_none conflicting)) duplicate_workspace_membership
  let membership : WorkspaceMembership = record {
    id = id;
    created_at = created_at;
    customer_id = workspace.customer_id;
    customer_membership_id = customer_membership.id;
    workspace_id = workspace.id;
    role = role;
  }
  modify (λ db. record db { workspace_memberships = insert membership db.workspace_memberships })
  audit_workspace workspace.customer_id workspace.id actor_id "workspace.member_added.v1"
      (added_metadata workspace.id id role)
  pure membership

abbrev pub with_role : WorkspaceRole → WorkspaceMembership → WorkspaceMembership
with_role new_role m = record m { role = new_role }

unfoldable pub change_workspace_member_role :
    WorkspaceMembership → WorkspaceRole → String → M WorkspaceMembership
unfolding audit_workspace
change_workspace_member_role membership new_role actor_id = do
  modify (λ db. record db {
    workspace_memberships =
        update (λ m. m.id == membership.id) (with_role new_role) db.workspace_memberships;
  })
  audit_workspace membership.customer_id membership.workspace_id actor_id
      "workspace.member_role_changed.v1"
      (λ e. object (
        field "workspace_membership_id" (text (e.str_uuid membership.id)) (
          field "from_role" (text (role_value membership.role))
            (field "to_role" (text (role_value new_role)) end))))
  pure (with_role new_role membership)

unfoldable pub remove_workspace_member : WorkspaceMembership → String → M (Unit {0})
unfolding audit_workspace
remove_workspace_member membership actor_id = do
  audit_workspace membership.customer_id membership.workspace_id actor_id
      "workspace.member_removed.v1"
      (λ e. object (
        field "workspace_membership_id" (text (e.str_uuid membership.id))
          (field "role" (text (role_value membership.role)) end)))
  modify (λ db. record db {
    workspace_memberships = delete (λ m. m.id == membership.id) db.workspace_memberships;
  })

abbrev pub archived : Option ℕ → Workspace → Workspace
archived at w = record w { archived_at = at }

abbrev pub id_metadata : ℕ → Env → Json
id_metadata workspace_id e = object (field "workspace_id" (text (e.str_uuid workspace_id)) end)

unfoldable pub archive_workspace : Workspace → String → M Workspace
unfolding audit_workspace
archive_workspace workspace actor_id = do
  now ← utcnow
  modify (λ db. record db {
    workspaces = update (λ w. w.id == workspace.id) (archived (some now)) db.workspaces;
  })
  audit_workspace workspace.customer_id workspace.id actor_id "workspace.archived.v1"
      (id_metadata workspace.id)
  pure (archived (some now) workspace)

unfoldable pub restore_workspace : Workspace → String → M Workspace
unfolding audit_workspace
restore_workspace workspace actor_id = do
  modify (λ db. record db {
    workspaces = update (λ w. w.id == workspace.id) (archived none) db.workspaces;
  })
  audit_workspace workspace.customer_id workspace.id actor_id "workspace.restored.v1"
      (id_metadata workspace.id)
  pure (archived none workspace)

-- `ORDER BY created_at DESC`
abbrev newer_setting : WorkspaceLanguageSetting → WorkspaceLanguageSetting → Bool
newer_setting x y = ltb y.created_at x.created_at

abbrev language_of : Option WorkspaceLanguageSetting → Option String
language_of none = none
language_of (some setting) = setting.language

unfoldable pub get_workspace_language : ℕ → M (Option String)
get_workspace_language workspace_id = gets (λ db. language_of (
    find (λ s. true)
      (order_by newer_setting (select (λ s. s.workspace_id == workspace_id) db.language_settings))))

abbrev opt_text : Option String → Json
opt_text none = null
opt_text (some t) = text t

unfoldable pub set_workspace_language : ℕ → ℕ → String → Option String → M WorkspaceLanguageSetting
unfolding audit_workspace
set_workspace_language customer_id workspace_id actor_id language = do
  id ← uuid4
  created_at ← utcnow
  let setting : WorkspaceLanguageSetting = record {
    id = id;
    created_at = created_at;
    customer_id = customer_id;
    workspace_id = workspace_id;
    actor_id = actor_id;
    language = language;
  }
  modify (λ db. record db { language_settings = insert setting db.language_settings })
  audit_workspace customer_id workspace_id actor_id "workspace.language_setting_changed.v1" (λ e.
      object (
        field "workspace_id" (text (e.str_uuid workspace_id))
          (field "language" (opt_text language) end)))
  pure setting

-- `ORDER BY archived_at DESC`, of rows that are archived.
abbrev archived_later : Option ℕ → Option ℕ → Bool
archived_later (some a) (some b) = ltb b a
archived_later _ _ = false

unfoldable pub list_archived_workspaces : ℕ → M (List Workspace)
list_archived_workspaces customer_id = gets (λ db.
    order_by (λ x y. archived_later x.archived_at y.archived_at)
      (select (λ w. w.customer_id == customer_id && not (is_none w.archived_at)) db.workspaces))
