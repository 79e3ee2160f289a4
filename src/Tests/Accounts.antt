-- ===== src/Tests/Accounts.antt =====
-- Examples: sessions, contexts, owners, budgets, kill switches and notifications.
use doda.Base.{suc, ◌+◌, ◌≤◌, ◌<◌, String, false, none, some, [], ◌∷◌, ◌++◌, ◌≡◌, ◌⊎◌, refl, arith}
use doda.Db.{State, ok, err, session_invalid, authorization_error, budget_exceeded}
use doda.Domain.Security.{
  CustomerRole, StoredRole, WorkspaceRole, WorkspaceKillSwitch, deny, step_up_required,
}
use doda.Domain.Identity.{Session, AuthStrength}
use doda.Domain.Tenant.{CustomerMembership, Workspace, WorkspaceMembership}
use doda.Domain.Action.{RiskLevel}
use doda.Domain.Usage.{AiBudgetLedger}
use doda.Domain.Notification.{NotificationPreference, NotificationType}
use doda.Session.{resolve_session, revoke_session, session_of}
use doda.Session.Lifetime.{IsLive, IsValid, resolve_session_decides, touched_state}
use doda.Session.Final.{Call, run, step, revocation_final, expiry_final}
use doda.Authz.{WorkspaceContext, get_workspace_context}
use doda.Authz.Checks.{authorize_consume_approval, is_own}
use doda.Authz.Context.{IsEntitled, get_workspace_context_decides}
use doda.Authz.Approval.{MayApprove, authorize_consume_approval_decides}
use doda.Budget.{Caps, reserve_budget, reconcile_budget, ledger_of, with_reservation, with_actual}
use doda.Budget.Cap.{IsStart, reserve_budget_decides, reconcile_budget_settles}
use doda.KillSwitch.{engage_workspace_kill_switch, workspace_switch_of}
use doda.KillSwitch.Blocking.{engage_workspace_engages}
use doda.Notification.{set_notification_preference, enabled_in}
use doda.Notification.Preferences.{set_notification_preference_decides}
use doda.Workspaces.{archive_workspace, add_workspace_member, membership_in}
use doda.Workspaces.Archive.{archived_denies_all}
use doda.Workspaces.Members.{IsAdded, add_workspace_member_decides}
use doda.Authz.{is_auditor_role}
use doda.Db.{Error}
use doda.Tests.Data.{demo, empty, at_start, draft}

abbrev one_session : Session
one_session = record {
  id = 3;
  created_at = 1;
  user_id = 7;
  auth_strength = AuthStrength.aal1;
  last_seen_at = 90;
  expires_at = 101;
  revoked_at = none;
  user_agent = none;
}

abbrev logged_in : State
logged_in = at_start (record empty { sessions = one_session ∷ [] })

resolve_session_decides_example :
    ((r : Session) × (session_of 3 logged_in.db ≡ some r)
      × IsLive 100 r
      × (resolve_session 3 demo logged_in
          ≡ (ok (record r { last_seen_at = 100 }), touched_state r demo logged_in)))
    ⊎ ((¬ IsValid 3 100 logged_in.db)
        × ((reason : String) × (resolve_session 3 demo logged_in
              ≡ (err (session_invalid reason), record logged_in { reads = 101 }))))
resolve_session_decides_example = resolve_session_decides 3 demo logged_in

revocation_final_example :
    let s' = run (Call.resolve 3 ∷ Call.list 7 ∷ []) demo (revoke_session 3 demo logged_in).1 in
    (reason : String) × (resolve_session 3 demo s'
      ≡ (err (session_invalid reason), record s' { reads = suc s'.reads }))
revocation_final_example =
    revocation_final 3 one_session (Call.resolve 3 ∷ Call.list 7 ∷ []) demo logged_in refl

expiry_final_example :
    let s' = run (Call.resolve 3 ∷ Call.resolve 3 ∷ []) demo logged_in in
    (reason : String) × (resolve_session 3 demo s'
      ≡ (err (session_invalid reason), record s' { reads = suc s'.reads }))
unfolding run step resolve_session
expiry_final_example =
    expiry_final 3 one_session (Call.resolve 3 ∷ Call.resolve 3 ∷ []) demo logged_in refl
      (omega arith)

-- User 7 owns customer 1, user 8 is a member of it and of workspace 2.
abbrev owner_row : CustomerMembership
owner_row = record {
  id = 11;
  created_at = 1;
  customer_id = 1;
  user_id = 7;
  role = StoredRole.role CustomerRole.customer_owner;
}

abbrev member_row : CustomerMembership
member_row = record {
  id = 12;
  created_at = 2;
  customer_id = 1;
  user_id = 8;
  role = StoredRole.role CustomerRole.member;
}

abbrev team : State
team = at_start (record empty {
  customer_memberships = owner_row ∷ member_row ∷ [];
  workspaces =
      record { id = 2; created_at = 1; customer_id = 1; name = "w"; archived_at = none } ∷ [];
  workspace_memberships =
      record {
        id = 13;
        created_at = 3;
        customer_id = 1;
        customer_membership_id = 12;
        workspace_id = 2;
        role = WorkspaceRole.member;
      }
      ∷ [];
})

get_workspace_context_decides_example :
    ((ctx : WorkspaceContext) × (get_workspace_context 8 2 false demo team ≡ (ok ctx, team))
      × IsEntitled 8 2 false team.db ctx)
    ⊎ ((get_workspace_context 8 2 false demo team ≡ (err (authorization_error deny), team))
        × (¬ ((ctx : WorkspaceContext) × IsEntitled 8 2 false team.db ctx)))
get_workspace_context_decides_example = get_workspace_context_decides 8 2 false demo team

abbrev context : WorkspaceContext
context = record { customer_id = 1; workspace_id = 2; user_id = 8; role = WorkspaceRole.member }

authorize_consume_approval_decides_example :
    let r = authorize_consume_approval context (draft RiskLevel.r3) AuthStrength.aal1 demo team in
    (MayApprove context "user:id" demo
      × (AuthStrength.aal1 ≡ AuthStrength.aal2)
      × (r ≡ (ok tt, team)))
    ⊎ ((MayApprove context "user:id" demo
          × (AuthStrength.aal1 ≡ AuthStrength.aal1)
          × (r ≡ (err (authorization_error step_up_required), team)))
        ⊎ ((is_own context "user:id" demo ≡ false)
            × (false ≡ false)
            × (r ≡ (err (authorization_error deny), team))))
authorize_consume_approval_decides_example =
    authorize_consume_approval_decides context (draft RiskLevel.r3) AuthStrength.aal1 demo team

abbrev caps : Caps
caps = record { soft_cap_cents = 2000; hard_cap_cents = 10000 }

reserve_budget_decides_example :
    let (r, s') = reserve_budget (λ db. db) caps 1 300 demo team in
    (l : AiBudgetLedger) × IsStart (λ db. db) 1 "2026-01" team.db l
    × (((r ≡ ok tt)
          × (ledger_of 1 "2026-01" s'.db ≡ some (with_reservation 300 l))
          × (l.reserved_cents + l.actual_cents + 300 ≤ 10000))
        ⊎ ((r ≡ err budget_exceeded)
            × (ledger_of 1 "2026-01" s'.db ≡ some l)
            × (10000 < l.reserved_cents + l.actual_cents + 300)))
reserve_budget_decides_example = reserve_budget_decides (λ db. db) caps 1 300 0 demo team

reconcile_budget_settles_example :
    let (r, s') = reconcile_budget (λ db. db) 1 300 120 demo team in
    (l : AiBudgetLedger) × IsStart (λ db. db) 1 "2026-01" team.db l
    × (r ≡ ok tt)
    × (ledger_of 1 "2026-01" s'.db ≡ some (with_actual 300 120 l))
reconcile_budget_settles_example = reconcile_budget_settles (λ db. db) caps 1 300 120 demo team

engage_workspace_engages_example :
    let out = engage_workspace_kill_switch (λ db. db) 2 1 "user:id" "leak" demo team in
    (k : WorkspaceKillSwitch) × (out.0 ≡ ok k) × (workspace_switch_of 2 out.1.db ≡ some k)
engage_workspace_engages_example =
    engage_workspace_engages (λ db. db) 1 "user:id" "leak" demo team 2

set_notification_preference_decides_example :
    let (r, s') =
      set_notification_preference
        (λ db. db)
        1
        "user:id"
        NotificationType.failed_action
        false
        demo
        team in
    ((p : NotificationPreference) × (r ≡ ok p))
    × (enabled_in s'.db 1 "user:id" NotificationType.failed_action ≡ false)
set_notification_preference_decides_example =
    set_notification_preference_decides (λ db. db) 1 "user:id" NotificationType.failed_action false
      demo team refl

abbrev place : Workspace
place = record { id = 2; created_at = 1; customer_id = 1; name = "w"; archived_at = none }

archived_denies_all_example :
    let s' = (archive_workspace place "user:id" demo team).1 in
    get_workspace_context 7 2 false demo s' ≡ (err (authorization_error deny), s')
archived_denies_all_example = archived_denies_all place place "user:id" 7 demo team refl

add_workspace_member_decides_example :
    let (r, s') = add_workspace_member place owner_row WorkspaceRole.member "user:id" demo team in
    ((owner_row.customer_id ≡ place.customer_id)
      × (is_auditor_role owner_row.role ≡ false)
      × (membership_in 11 2 team.db ≡ none)
      × ((m : WorkspaceMembership) × IsAdded place owner_row WorkspaceRole.member m
          × (r ≡ ok m)
          × (s'.db.workspace_memberships ≡ team.db.workspace_memberships ++ m ∷ [])))
    ⊎ (((x : Error) × (r ≡ err x)) × (s'.db ≡ team.db))
add_workspace_member_decides_example =
    add_workspace_member_decides place owner_row WorkspaceRole.member "user:id" demo team
