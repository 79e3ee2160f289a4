-- ===== src/KillSwitch.antt =====
-- backend/src/doda/application/kill_switch_service.py
pub mod Blocking
use doda.Base.{
  ℕ, suc, String, Bool, true, false, not, Option, none, some, List, [], ◌∷◌, ◌++◌, ◌==◌, is_none,
  if◌then◌else◌,
}
use doda.Base.Table.{find, select, insert, delete}
use doda.Json.{Json, text, object, end, field}
use doda.Env.{Env, user_actor}
use doda.Db.{
  Db, State, M, Error, kill_switch_engaged, assertion_error, ok, ◌>>=◌, ◌>>◌, pure, raise, raise_if,
  gets, asks, some_or_raise, modify, utcnow, uuid4,
}
use doda.Domain.Security.{WorkspaceKillSwitch, CustomerKillSwitch}
use doda.Domain.Tenant.{CustomerMembership, WorkspaceMembership}
use doda.Domain.Notification.{security_alert}
use doda.Audit.{Entry, record_audit_event}
use doda.Notification.{Notice, create_notification}

abbrev pub workspace_switch_of : ℕ → Db → Option WorkspaceKillSwitch
workspace_switch_of workspace_id db =
    find (λ k. k.workspace_id == workspace_id) db.workspace_switches

abbrev pub customer_switch_of : ℕ → Db → Option CustomerKillSwitch
customer_switch_of customer_id db = find (λ k. k.customer_id == customer_id) db.customer_switches

unfoldable pub assert_not_killed : ℕ → ℕ → M (Unit {0})
assert_not_killed customer_id workspace_id = do
  customer_switch ← gets (customer_switch_of customer_id)
  raise_if (not (is_none customer_switch)) (kill_switch_engaged "customer")
  workspace_switch ← gets (workspace_switch_of workspace_id)
  raise_if (not (is_none workspace_switch)) (kill_switch_engaged "workspace")

unfoldable pub get_workspace_kill_switch_status : ℕ → M (Option WorkspaceKillSwitch)
get_workspace_kill_switch_status workspace_id = gets (workspace_switch_of workspace_id)

unfoldable pub get_customer_kill_switch_status : ℕ → M (Option CustomerKillSwitch)
get_customer_kill_switch_status customer_id = gets (customer_switch_of customer_id)

-- One notification for each user, in turn.
unfoldable pub notify_all : (String → Notice) → List ℕ → M (Unit {0})
notify_all notice [] = pure tt
notify_all notice (user_id ∷ users) = do
  recipient_id ← asks (λ e. user_actor e user_id)
  create_notification (notice recipient_id)
  notify_all notice users

abbrev users_of : List CustomerMembership → List ℕ
users_of [] = []
users_of (m ∷ ms) = m.user_id ∷ users_of ms

-- The join of the workspace's memberships with the customer memberships that they name.
abbrev joined_users : List WorkspaceMembership → List CustomerMembership → List ℕ
joined_users [] members = []
joined_users (w ∷ ws) members =
    users_of (select (λ m. m.id == w.customer_membership_id) members) ++ joined_users ws members

abbrev pub workspace_users : ℕ → Db → List ℕ
workspace_users workspace_id db =
    joined_users (select (λ w. w.workspace_id == workspace_id) db.workspace_memberships)
      db.customer_memberships

abbrev pub customer_users : ℕ → Db → List ℕ
customer_users customer_id db =
    users_of (select (λ m. m.customer_id == customer_id) db.customer_memberships)

abbrev workspace_alert : ℕ → ℕ → String → String → Notice
workspace_alert customer_id workspace_id reason recipient_id = record {
  customer_id = customer_id;
  workspace_id = some workspace_id;
  recipient_id = recipient_id;
  notification_type = security_alert;
  reference_type = "workspace_kill_switch";
  reference_id = workspace_id;
  safe_metadata = object (field "scope" (text "workspace") (field "reason" (text reason) end));
}

-- The rest of an engagement, by the row that the unique key of the table was tested against.
add_workspace_switch : WorkspaceKillSwitch → Option WorkspaceKillSwitch → M WorkspaceKillSwitch
add_workspace_switch ours (some theirs) = pure theirs
add_workspace_switch ours none = do
  modify (λ db. record db { workspace_switches = insert ours db.workspace_switches })
  trace_id ← uuid4
  shown ← asks (λ e. e.str_uuid ours.workspace_id)
  record_audit_event (record {
    customer_id = ours.customer_id;
    workspace_id = some ours.workspace_id;
    trace_id = trace_id;
    actor_id = ours.engaged_by;
    event_type = "killswitch.workspace.engaged.v1";
    safe_metadata =
        object (field "workspace_id" (text shown) (field "reason" (text ours.reason) end));
  })
  users ← gets (workspace_users ours.workspace_id)
  notify_all (workspace_alert ours.customer_id ours.workspace_id ours.reason) users
  pure ours

-- `meanwhile` is what other transactions commit between the lookup and the insertion.
or_engage_workspace :
    (Db → Db) → ℕ → ℕ → String → String → Option WorkspaceKillSwitch → M WorkspaceKillSwitch
unfolding add_workspace_switch
or_engage_workspace meanwhile workspace_id customer_id actor_id reason (some switch) = pure switch
or_engage_workspace meanwhile workspace_id customer_id actor_id reason none = do
  engaged_at ← utcnow
  modify meanwhile
  theirs ← gets (workspace_switch_of workspace_id)
  add_workspace_switch
      (record {
        workspace_id = workspace_id;
        customer_id = customer_id;
        engaged_at = engaged_at;
        engaged_by = actor_id;
        reason = reason;
      })
      theirs

unfoldable pub engage_workspace_kill_switch :
    (Db → Db) → ℕ → ℕ → String → String → M WorkspaceKillSwitch
unfolding or_engage_workspace
engage_workspace_kill_switch meanwhile workspace_id customer_id actor_id reason = do
  found ← gets (workspace_switch_of workspace_id)
  or_engage_workspace meanwhile workspace_id customer_id actor_id reason found

unfoldable pub disengage_workspace_kill_switch : ℕ → ℕ → String → M (Unit {0})
disengage_workspace_kill_switch workspace_id customer_id actor_id = do
  found ← gets (workspace_switch_of workspace_id)
  if is_none found then pure tt else (do
    modify (λ db. record db {
      workspace_switches = delete (λ k. k.workspace_id == workspace_id) db.workspace_switches;
    })
    trace_id ← uuid4
    shown ← asks (λ e. e.str_uuid workspace_id)
    record_audit_event (record {
      customer_id = customer_id;
      workspace_id = some workspace_id;
      trace_id = trace_id;
      actor_id = actor_id;
      event_type = "killswitch.workspace.disengaged.v1";
      safe_metadata = object (field "workspace_id" (text shown) end);
    })
    pure tt)

abbrev customer_alert : ℕ → String → String → Notice
customer_alert customer_id reason recipient_id = record {
  customer_id = customer_id;
  workspace_id = none;
  recipient_id = recipient_id;
  notification_type = security_alert;
  reference_type = "customer_kill_switch";
  reference_id = customer_id;
  safe_metadata = object (field "scope" (text "customer") (field "reason" (text reason) end));
}

add_customer_switch : CustomerKillSwitch → Option CustomerKillSwitch → M CustomerKillSwitch
add_customer_switch ours (some theirs) = pure theirs
add_customer_switch ours none = do
  modify (λ db. record db { customer_switches = insert ours db.customer_switches })
  trace_id ← uuid4
  record_audit_event (record {
    customer_id = ours.customer_id;
    workspace_id = none;
    trace_id = trace_id;
    actor_id = ours.engaged_by;
    event_type = "killswitch.customer.engaged.v1";
    safe_metadata = object (field "reason" (text ours.reason) end);
  })
  users ← gets (customer_users ours.customer_id)
  notify_all (customer_alert ours.customer_id ours.reason) users
  pure ours

or_engage_customer :
    (Db → Db) → ℕ → String → String → Option CustomerKillSwitch → M CustomerKillSwitch
unfolding add_customer_switch
or_engage_customer meanwhile customer_id actor_id reason (some switch) = pure switch
or_engage_customer meanwhile customer_id actor_id reason none = do
  engaged_at ← utcnow
  modify meanwhile
  theirs ← gets (customer_switch_of customer_id)
  add_customer_switch
      (record {
        customer_id = customer_id;
        engaged_at = engaged_at;
        engaged_by = actor_id;
        reason = reason;
      })
      theirs

unfoldable pub engage_customer_kill_switch : (Db → Db) → ℕ → String → String → M CustomerKillSwitch
unfolding or_engage_customer
engage_customer_kill_switch meanwhile customer_id actor_id reason = do
  found ← gets (customer_switch_of customer_id)
  or_engage_customer meanwhile customer_id actor_id reason found

unfoldable pub disengage_customer_kill_switch : ℕ → String → M (Unit {0})
disengage_customer_kill_switch customer_id actor_id = do
  found ← gets (customer_switch_of customer_id)
  if is_none found then pure tt else (do
    modify (λ db. record db {
      customer_switches = delete (λ k. k.customer_id == customer_id) db.customer_switches;
    })
    trace_id ← uuid4
    record_audit_event (record {
      customer_id = customer_id;
      workspace_id = none;
      trace_id = trace_id;
      actor_id = actor_id;
      event_type = "killswitch.customer.disengaged.v1";
      safe_metadata = object end;
    })
    pure tt)
