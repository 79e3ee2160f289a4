-- ===== src/Workspaces/Archive.antt =====
-- An archived workspace is closed.
use doda.Base.{ℕ, suc, String, false, some, ◌≡◌, refl, ◌==◌}
use doda.Base.Table.{update}
use doda.Base.Table.Laws.{find_holds, find-update_self}
use doda.Json.{Json}
use doda.Env.{Env}
use doda.Db.{State, ok, err, authorization_error}
use doda.Domain.Security.{deny}
use doda.Domain.Tenant.{Workspace}
use doda.Audit.Record.{audited, record_audit_event_lem}
use doda.Authz.{get_workspace_context, workspace_of}
use doda.Authz.Context.{archived_denies}
use doda.Workspaces.{audit_workspace, archive_workspace, archived, id_metadata}

-- An audit event leaves the workspaces alone.
audit_workspace_lem :
    (c w : ℕ) (actor_id event_type : String) (metadata : Env → Json) (e : Env) (s : State)
    → (s' : State) × (audit_workspace c w actor_id event_type metadata e s ≡ (ok tt, s'))
      × (s'.db.workspaces ≡ s.db.workspaces)
unfolding audit_workspace
audit_workspace_lem c w actor_id event_type metadata e s = (
  audited
      (record {
        customer_id = c;
        workspace_id = some w;
        trace_id = e.uuid4 s.ids;
        actor_id = actor_id;
        event_type = event_type;
        safe_metadata = metadata e;
      })
      e (record s { ids = suc s.ids }),
  rw record_audit_event_lem refl,
  refl,
)

-- Once a workspace that exists is archived, nobody gets a context of it, an owner of the customer
-- included, unless archived workspaces are allowed; the attempt changes nothing.
pub archived_denies_all :
    (workspace row : Workspace) (actor_id : String) (user_id : ℕ) (e : Env) (s : State)
    → workspace_of workspace.id s.db ≡ some row
    → let s' = (archive_workspace workspace actor_id e s).1 in
      get_workspace_context user_id workspace.id false e s' ≡ (err (authorization_error deny), s')
unfolding archive_workspace
archived_denies_all workspace row actor_id user_id e s found =
    let now = e.clock s.reads in
    let closed : State = record s {
      db = record s.db {
        workspaces = update (λ w. w.id == workspace.id) (archived (some now)) s.db.workspaces;
      };
      reads = suc s.reads;
    } in
    let (s', audits, kept) =
      audit_workspace_lem workspace.customer_id workspace.id actor_id "workspace.archived.v1"
        (id_metadata workspace.id) e closed in
    rw audits (
      archived_denies user_id workspace.id (archived (some now) row) now e s' refl (
        rw kept (
          find-update_self (λ (w : Workspace). w.id == workspace.id) (archived (some now)) row
            s.db.workspaces
            (find_holds (λ (w : Workspace). w.id == workspace.id) s.db.workspaces row found)
            found)))
