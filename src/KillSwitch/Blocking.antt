-- ===== src/KillSwitch/Blocking.antt =====
-- What an engaged kill switch blocks, and that engaging one is effective whatever else commits.
use doda.Base.{
  ℕ, suc, String, none, some, List, [], ◌∷◌, ◌≡◌, ◌⊎◌, ◌∙◌, ap, refl, ◌==◌, ==_refl, inl, inr,
  Option-cases,
}
use doda.Base.Table.Laws.{find-append_none}
use doda.Env.{Env, user_actor}
use doda.Db.{Db, State, ok, err, kill_switch_engaged}
use doda.Domain.Security.{CustomerKillSwitch, WorkspaceKillSwitch}
use doda.Audit.Record.{record_audit_event_lem}
use doda.Notification.{Notice}
use doda.Notification.Delivery.{notified, create_notification_lem, with_notices, db-notified}
use doda.KillSwitch.{
  notify_all, engage_workspace_kill_switch, engage_customer_kill_switch, or_engage_workspace,
  add_workspace_switch, or_engage_customer, add_customer_switch, assert_not_killed,
  customer_switch_of, workspace_switch_of,
}

module _ (c w : ℕ) (e : Env) (s : State) where
  pub assert_not_killed_ok :
      customer_switch_of c s.db ≡ none
      → workspace_switch_of w s.db ≡ none
      → assert_not_killed c w e s ≡ (ok tt, s)
  unfolding assert_not_killed
  assert_not_killed_ok hc hw = rw (hc, hw)

  assert_not_killed_customer :
      (k : CustomerKillSwitch)
      → customer_switch_of c s.db ≡ some k
      → assert_not_killed c w e s ≡ (err (kill_switch_engaged "customer"), s)
  unfolding assert_not_killed
  assert_not_killed_customer k h = rw h

  assert_not_killed_workspace :
      (k : WorkspaceKillSwitch)
      → customer_switch_of c s.db ≡ none
      → workspace_switch_of w s.db ≡ some k
      → assert_not_killed c w e s ≡ (err (kill_switch_engaged "workspace"), s)
  unfolding assert_not_killed
  assert_not_killed_workspace k hc hw = rw (hc, hw)

-- A kill switch covers the workspace: its own, or its customer's.
abbrev pub IsKilled : ℕ → ℕ → Db → Type 0
IsKilled c w db =
    ((k : CustomerKillSwitch) × (customer_switch_of c db ≡ some k))
    ⊎ ((k : WorkspaceKillSwitch) × (workspace_switch_of w db ≡ some k))

-- The check raises in every state in which a kill switch covers the workspace, and changes nothing.
pub assert_not_killed_raises :
    (c w : ℕ) (e : Env) (s : State)
    → IsKilled c w s.db
    → (scope : String) × (assert_not_killed c w e s ≡ (err (kill_switch_engaged scope), s))
assert_not_killed_raises c w e s (inl (k, h)) = ("customer", assert_not_killed_customer c w e s k h)
assert_not_killed_raises c w e s (inr (k, h)) = elim (Option-cases (customer_switch_of c s.db)) [
  | inl hc ↦ ("workspace", assert_not_killed_workspace c w e s k hc h)
  | inr (j, hj) ↦ ("customer", assert_not_killed_customer c w e s j hj)
]

-- The state that notifying a list of users leaves.
unfoldable told : (String → Notice) → List ℕ → Env → State → State
told notice [] e s = s
told notice (u ∷ users) e s = told notice users e (notified (notice (user_actor e u)) e s)

notify_all_lem :
    (notice : String → Notice) (users : List ℕ) (e : Env) (s : State)
    → notify_all notice users e s ≡ (ok tt, told notice users e s)
unfolding notify_all told
notify_all_lem notice [] e s = refl
notify_all_lem notice (u ∷ users) e s =
    rw create_notification_lem
      (notify_all_lem notice users e (notified (notice (user_actor e u)) e s))

-- It writes only notifications and the audit tables.
db-told :
    (notice : String → Notice) (users : List ℕ) (e : Env) (s : State)
    → (told notice users e s).db ≡ with_notices s.db (told notice users e s).db
unfolding told
db-told notice [] e s = refl
db-told notice (u ∷ users) e s =
    let n = notice (user_actor e u) in
    db-told notice users e (notified n e s)
    ∙ ap (λ (db : Db). with_notices db (told notice users e (notified n e s)).db)
        (db-notified n e s)

-- Inserting a row of a workspace that has none makes it the workspace's, and returns it.
add_workspace_switch_lem :
    (k : WorkspaceKillSwitch) (e : Env) (s : State)
    → workspace_switch_of k.workspace_id s.db ≡ none
    → ((add_workspace_switch k none e s).0 ≡ ok k)
      × (workspace_switch_of k.workspace_id (add_workspace_switch k none e s).1.db ≡ some k)
unfolding add_workspace_switch
add_workspace_switch_lem k e s gone = rw record_audit_event_lem (
    rw notify_all_lem (
      refl,
      rw db-told (
          find-append_none (λ (x : WorkspaceKillSwitch). x.workspace_id == k.workspace_id)
            s.db.workspace_switches (k ∷ []) gone
          ∙ rw (==_refl k.workspace_id) refl),
    ))

add_customer_switch_lem :
    (k : CustomerKillSwitch) (e : Env) (s : State)
    → customer_switch_of k.customer_id s.db ≡ none
    → ((add_customer_switch k none e s).0 ≡ ok k)
      × (customer_switch_of k.customer_id (add_customer_switch k none e s).1.db ≡ some k)
unfolding add_customer_switch
add_customer_switch_lem k e s gone = rw record_audit_event_lem (
    rw notify_all_lem (
      refl,
      rw db-told (
          find-append_none (λ (x : CustomerKillSwitch). x.customer_id == k.customer_id)
            s.db.customer_switches (k ∷ []) gone
          ∙ rw (==_refl k.customer_id) refl),
    ))

module _ (meanwhile : Db → Db) (c : ℕ) (actor_id reason : String) (e : Env) (s : State) where
  -- Engaging a workspace's switch returns a row and leaves it as the workspace's, whatever other
  -- transactions commit between the lookup and the insertion.
  pub engage_workspace_engages :
      (w : ℕ)
      → (k : WorkspaceKillSwitch) × ((engage_workspace_kill_switch meanwhile w c actor_id reason e
            s).0
          ≡ ok k)
        × (workspace_switch_of w
              (engage_workspace_kill_switch meanwhile w c actor_id reason e s).1.db
            ≡ some k)
  unfolding engage_workspace_kill_switch or_engage_workspace
  engage_workspace_engages w = elim (Option-cases (workspace_switch_of w s.db)) [
    | inr (k, found) ↦ (k, rw found refl, rw found found)
    | inl missing ↦ elim (Option-cases (workspace_switch_of w (meanwhile s.db))) [
      | inr (k, found) ↦ (k, rw (missing, found) refl, rw (missing, found) found)
      | inl gone ↦
          let k : WorkspaceKillSwitch = record {
            workspace_id = w;
            customer_id = c;
            engaged_at = e.clock s.reads;
            engaged_by = actor_id;
            reason = reason;
          } in
          let entered : State = record s { db = meanwhile s.db; reads = suc s.reads } in
          let (returns, engaged) = add_workspace_switch_lem k e entered gone in
          (k, rw (missing, gone) returns, rw (missing, gone) engaged)
    ]
  ]

  -- Engaging a customer's switch returns a row and leaves it as the customer's, whatever other
  -- transactions commit between the lookup and the insertion.
  pub engage_customer_engages :
      (k : CustomerKillSwitch) × ((engage_customer_kill_switch meanwhile c actor_id reason e s).0
        ≡ ok k)
      × (customer_switch_of c (engage_customer_kill_switch meanwhile c actor_id reason e s).1.db
          ≡ some k)
  unfolding engage_customer_kill_switch or_engage_customer
  engage_customer_engages = elim (Option-cases (customer_switch_of c s.db)) [
    | inr (k, found) ↦ (k, rw found refl, rw found found)
    | inl missing ↦ elim (Option-cases (customer_switch_of c (meanwhile s.db))) [
      | inr (k, found) ↦ (k, rw (missing, found) refl, rw (missing, found) found)
      | inl gone ↦
          let k : CustomerKillSwitch = record {
            customer_id = c;
            engaged_at = e.clock s.reads;
            engaged_by = actor_id;
            reason = reason;
          } in
          let entered : State = record s { db = meanwhile s.db; reads = suc s.reads } in
          let (returns, engaged) = add_customer_switch_lem k e entered gone in
          (k, rw (missing, gone) returns, rw (missing, gone) engaged)
    ]
  ]
