-- ===== src/Notification.antt =====
-- backend/src/doda/application/notification_service.py: preferences, and the delivery of a
-- notification, which is its row and an audit event. `notify_new_device_login`, which opens its own
-- sessions, is not here.
pub mod Delivery
pub mod Preferences
use doda.Base.{
  ℕ, suc, String, Bool, true, false, not, ◌&&◌, ◌||◌, Option, none, some, List, [], ◌∷◌, ltb, ◌==◌,
  str_eq, is_none, if◌then◌else◌,
}
use doda.Base.Table.{find, select, replace, update, insert, order_by, take}
use doda.Json.{Json, text, object, end, field}
use doda.Env.{Env}
use doda.Db.{
  Db, State, M, Error, notification_preference_error, assertion_error, ok, ◌>>=◌, ◌>>◌, pure, raise,
  raise_if, gets, asks, some_or_raise, modify, utcnow, uuid4,
}
use doda.Domain.Notification.{
  Notification, NotificationPreference, NotificationType, pending_approval, failed_action,
  completed_task, security_alert, reminder_due,
}
use doda.Audit.{record_audit_event}

abbrev type_index : NotificationType → ℕ
type_index pending_approval = 0
type_index failed_action = 1
type_index completed_task = 2
type_index security_alert = 3
type_index reminder_due = 4

abbrev pub type_eq : NotificationType → NotificationType → Bool
type_eq a b = type_index a == type_index b

-- `notification_type.value`
abbrev pub type_value : NotificationType → String
type_value pending_approval = "PENDING_APPROVAL"
type_value failed_action = "FAILED_ACTION"
type_value completed_task = "COMPLETED_TASK"
type_value security_alert = "SECURITY_ALERT"
type_value reminder_due = "REMINDER_DUE"

-- `notification_type in _ALWAYS_ON_TYPES`
abbrev pub always_on : NotificationType → Bool
always_on t = type_eq t security_alert

abbrev pub preference_is : ℕ → String → NotificationType → NotificationPreference → Bool
preference_is customer_id recipient_id t p =
    p.customer_id == customer_id
    && str_eq p.recipient_id recipient_id
    && type_eq p.notification_type t

abbrev pub preference_of : ℕ → String → NotificationType → Db → Option NotificationPreference
preference_of customer_id recipient_id t db =
    find (preference_is customer_id recipient_id t) db.preferences

-- `preference is None or preference.enabled`
abbrev pub enabled_by : Option NotificationPreference → Bool
enabled_by none = true
enabled_by (some p) = p.enabled

abbrev pub enabled_in : Db → ℕ → String → NotificationType → Bool
enabled_in db customer_id recipient_id t =
    always_on t || enabled_by (preference_of customer_id recipient_id t db)

unfoldable pub is_notification_type_enabled : ℕ → String → NotificationType → M Bool
is_notification_type_enabled customer_id recipient_id t = if always_on t then pure true else (do
  preference ← gets (preference_of customer_id recipient_id t)
  pure (enabled_by preference))

-- The keyword arguments of `create_notification`.
pub record Notice : Type 0 where
  pub customer_id : ℕ
  pub workspace_id : Option ℕ
  pub recipient_id : String
  pub notification_type : NotificationType
  pub reference_type : String
  pub reference_id : ℕ
  pub safe_metadata : Json

abbrev pub delivery_metadata : Env → ℕ → Notice → Json
delivery_metadata e id n = object (
    field "notification_id" (text (e.str_uuid id)) (
      field "recipient_id" (text n.recipient_id) (
        field "notification_type" (text (type_value n.notification_type)) (
          field "reference_type" (text n.reference_type)
            (field "reference_id" (text (e.str_uuid n.reference_id)) end)))))

unfoldable pub deliver : Notice → M (Option Notification)
deliver n = do
  id ← uuid4
  created_at ← utcnow
  let notification : Notification = record {
    id = id;
    created_at = created_at;
    customer_id = n.customer_id;
    workspace_id = n.workspace_id;
    recipient_id = n.recipient_id;
    notification_type = n.notification_type;
    reference_type = n.reference_type;
    reference_id = n.reference_id;
    safe_metadata = n.safe_metadata;
    read_at = none;
  }
  modify (λ db. record db { notifications = insert notification db.notifications })
  trace_id ← uuid4
  metadata ← asks (λ e. delivery_metadata e id n)
  record_audit_event (record {
    customer_id = n.customer_id;
    workspace_id = n.workspace_id;
    trace_id = trace_id;
    actor_id = "system:notifier";
    event_type = "notification.delivered.v1";
    safe_metadata = metadata;
  })
  pure (some notification)

unfoldable pub create_notification : Notice → M (Option Notification)
create_notification n = do
  enabled ← is_notification_type_enabled n.customer_id n.recipient_id n.notification_type
  if enabled then deliver n else pure none

-- The entry of the dictionary that `list_notification_preferences` returns for one type: the last
-- row of that type decides, as in the dict comprehension over the rows.
abbrev last_override : NotificationType → Bool → List NotificationPreference → Bool
last_override t found [] = found
last_override t found (p ∷ ps) =
    last_override t (if type_eq p.notification_type t then p.enabled else found) ps

unfoldable pub list_notification_preferences : ℕ → String → M (NotificationType → Bool)
list_notification_preferences customer_id recipient_id = do
  rows ← gets λ db.
      select (λ p. p.customer_id == customer_id && str_eq p.recipient_id recipient_id)
        db.preferences
  pure (λ t. last_override t true rows)

-- `preference.enabled = enabled`
write_preference : Bool → NotificationPreference → M NotificationPreference
write_preference enabled row = do
  let written : NotificationPreference = record row { enabled = enabled }
  modify (λ db. record db { preferences = replace (λ p. p.id == row.id) written db.preferences })
  pure written

-- The insertion, once the unique constraint is tested against a row of another transaction.
add_preference : NotificationPreference → Option NotificationPreference → M NotificationPreference
unfolding write_preference
add_preference ours none = do
  modify (λ db. record db { preferences = insert ours db.preferences })
  pure ours
add_preference ours (some theirs) = write_preference ours.enabled theirs

-- `meanwhile` is what other transactions commit between the lookup and the insertion. A row that
-- one of them inserted makes the unique constraint refuse ours; the savepoint is rolled back, and
-- the value is written over theirs.
store_preference :
    (Db → Db)
    → ℕ
    → String
    → NotificationType
    → Bool
    → Option NotificationPreference
    → M NotificationPreference
unfolding add_preference write_preference
store_preference meanwhile customer_id recipient_id t enabled none = do
  modify meanwhile
  id ← uuid4
  created_at ← utcnow
  theirs ← gets (preference_of customer_id recipient_id t)
  add_preference
      (record {
        id = id;
        created_at = created_at;
        customer_id = customer_id;
        recipient_id = recipient_id;
        notification_type = t;
        enabled = enabled;
      })
      theirs
store_preference meanwhile customer_id recipient_id t enabled (some row) =
    write_preference enabled row

unfoldable pub set_notification_preference :
    (Db → Db) → ℕ → String → NotificationType → Bool → M NotificationPreference
unfolding store_preference
set_notification_preference meanwhile customer_id recipient_id t enabled = do
  raise_if (not enabled && always_on t) notification_preference_error
  found ← gets (preference_of customer_id recipient_id t)
  store_preference meanwhile customer_id recipient_id t enabled found

abbrev opt_matches : Option ℕ → Option ℕ → Bool
opt_matches none w = true
opt_matches (some i) none = true
opt_matches (some i) (some w) = w == i

abbrev newest_first : Notification → Notification → Bool
newest_first x y = ltb y.created_at x.created_at

abbrev smaller : ℕ → ℕ → ℕ
smaller a b = if ltb b a then b else a

unfoldable pub list_notifications_for_user :
    ℕ → String → Option ℕ → Bool → ℕ → M (List Notification)
list_notifications_for_user customer_id recipient_id workspace_id unread_only limit = gets λ db.
    take (smaller limit 200) (
      order_by newest_first (
        select
          (λ n.
            n.customer_id == customer_id
            && str_eq n.recipient_id recipient_id
            && opt_matches workspace_id n.workspace_id
            && (not unread_only || is_none n.read_at))
          db.notifications))

unfoldable pub mark_notification_read : Notification → M Notification
mark_notification_read n =
    if is_none n.read_at
    then (do
      now ← utcnow
      let marked : Notification = record n { read_at = some now }
      modify (λ db. record db {
        notifications =
            update (λ x. x.id == n.id) (λ x. record x { read_at = some now }) db.notifications;
      })
      pure marked)
    else pure n
