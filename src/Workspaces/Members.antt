-- ===== src/Workspaces/Members.antt =====
-- Who can be added to a workspace.
use doda.Base.{
  String, false, none, [], ◌∷◌, ◌++◌, ◌≡◌, ◌⊎◌, refl, arith, ◌==◌, inl, inr, Bool-cases,
  Option-cases,
}
use doda.Env.{Env}
use doda.Db.{State, Error, ok, err, workspace_membership_error, duplicate_workspace_membership}
use doda.Domain.Security.{WorkspaceRole}
use doda.Domain.Tenant.{CustomerMembership, Workspace, WorkspaceMembership}
use doda.Audit.Record.{record_audit_event_lem}
use doda.Authz.{is_auditor_role}
use doda.Workspaces.{audit_workspace, add_workspace_member, membership_in}

-- The row that is added.
pub record IsAdded (workspace : Workspace) (cm : CustomerMembership) (role : WorkspaceRole)
    (m : WorkspaceMembership) : Type 0 where
  pub of_customer : m.customer_id ≡ workspace.customer_id
  pub of_member : m.customer_membership_id ≡ cm.id
  pub in_workspace : m.workspace_id ≡ workspace.id
  pub with_role : m.role ≡ role

module _ (workspace : Workspace) (cm : CustomerMembership) (role : WorkspaceRole)
    (actor_id : String) (e : Env) (s : State) where
  -- Adding a member returns only for a customer membership of the workspace's own customer that is
  -- not an auditor's and has no role in the workspace yet, and then adds exactly one row, of that
  -- membership with that role; otherwise it raises and changes no table.
  pub add_workspace_member_decides :
      let (r, s') = add_workspace_member workspace cm role actor_id e s in
      ((cm.customer_id ≡ workspace.customer_id)
        × (is_auditor_role cm.role ≡ false)
        × (membership_in cm.id workspace.id s.db ≡ none)
        × ((m : WorkspaceMembership) × IsAdded workspace cm role m
            × (r ≡ ok m)
            × (s'.db.workspace_memberships ≡ s.db.workspace_memberships ++ m ∷ [])))
      ⊎ (((x : Error) × (r ≡ err x)) × (s'.db ≡ s.db))
  unfolding add_workspace_member audit_workspace
  add_workspace_member_decides = elim (Bool-cases (cm.customer_id == workspace.customer_id)) [
    | inr foreign ↦ inr ((workspace_membership_error, rw foreign refl), rw foreign refl)
    | inl own ↦ elim (Bool-cases (is_auditor_role cm.role)) [
      | inl audits ↦
          inr ((workspace_membership_error, rw (own, audits) refl), rw (own, audits) refl)
      | inr acts ↦ elim (Option-cases (membership_in cm.id workspace.id s.db)) [
        | inr (k, taken) ↦ inr (
          (duplicate_workspace_membership, rw (own, acts, taken) refl),
          rw (own, acts, taken) refl,
        )
        | inl free ↦
            let m : WorkspaceMembership = record {
              id = e.uuid4 s.ids;
              created_at = e.clock s.reads;
              customer_id = workspace.customer_id;
              customer_membership_id = cm.id;
              workspace_id = workspace.id;
              role = role;
            } in
            inl (
              ground arith,
              acts,
              free,
              (
                m,
                record {
                  of_customer = refl;
                  of_member = refl;
                  in_workspace = refl;
                  with_role = refl;
                },
                rw (own, acts, free) (rw record_audit_event_lem refl),
                rw (own, acts, free) (rw record_audit_event_lem refl),
              ),
            )
      ]
    ]
  ]
