-- ===== src/Notification/Delivery.antt =====
-- The effect of `create_notification`, in closed form.
use doda.Base.{ℕ, suc, String, Option, none, some, ◌≡◌, inl, inr, Bool-cases, if◌then◌else◌}
use doda.Base.Table.{insert}
use doda.Env.{Env}
use doda.Db.{Db, State, ok}
use doda.Domain.Notification.{Notification, NotificationType}
use doda.Audit.{Entry}
use doda.Audit.Record.{audited, record_audit_event_lem}
use doda.Notification.{
  Notice, enabled_in, delivery_metadata, deliver, create_notification, is_notification_type_enabled,
  always_on,
}

-- The row of a notification.
abbrev pub notification_row : Notice → Env → State → Notification
notification_row n e s = record {
  id = e.uuid4 s.ids;
  created_at = e.clock s.reads;
  customer_id = n.customer_id;
  workspace_id = n.workspace_id;
  recipient_id = n.recipient_id;
  notification_type = n.notification_type;
  reference_type = n.reference_type;
  reference_id = n.reference_id;
  safe_metadata = n.safe_metadata;
  read_at = none;
}

-- The audit event of a delivery.
abbrev pub delivery_entry : Notice → Env → State → Entry
delivery_entry n e s = record {
  customer_id = n.customer_id;
  workspace_id = n.workspace_id;
  trace_id = e.uuid4 (suc s.ids);
  actor_id = "system:notifier";
  event_type = "notification.delivered.v1";
  safe_metadata = delivery_metadata e (e.uuid4 s.ids) n;
}

-- The state once the row is inserted, before the audit event.
abbrev pub inserted : Notice → Env → State → State
inserted n e s = record s {
  db = record s.db { notifications = insert (notification_row n e s) s.db.notifications };
  reads = suc s.reads;
  ids = suc (suc s.ids);
}

deliver_lem :
    (n : Notice) (e : Env) (s : State)
    → deliver n e s
      ≡ (ok (some (notification_row n e s)), audited (delivery_entry n e s) e (inserted n e s))
unfolding deliver
deliver_lem n e s = rw record_audit_event_lem

-- The state that a call leaves.
unfoldable pub notified : Notice → Env → State → State
notified n e s =
    if enabled_in s.db n.customer_id n.recipient_id n.notification_type
    then audited (delivery_entry n e s) e (inserted n e s)
    else s

abbrev pub returned : Notice → Env → State → Option Notification
returned n e s =
    if enabled_in s.db n.customer_id n.recipient_id n.notification_type
    then some (notification_row n e s)
    else none

is_notification_type_enabled_lem :
    (c : ℕ) (r : String) (t : NotificationType) (e : Env) (s : State)
    → is_notification_type_enabled c r t e s ≡ (ok (enabled_in s.db c r t), s)
unfolding is_notification_type_enabled
is_notification_type_enabled_lem c r t e s = elim (Bool-cases (always_on t)) [
  | inl forced ↦ rw forced
  | inr free ↦ rw free
]

-- `create_notification` never raises. It delivers exactly if the type is enabled for the recipient:
-- then it adds the row and the audit event; otherwise it changes nothing.
pub create_notification_lem :
    (n : Notice) (e : Env) (s : State)
    → create_notification n e s ≡ (ok (returned n e s), notified n e s)
unfolding create_notification notified
create_notification_lem n e s =
    rw is_notification_type_enabled_lem
      (elim (Bool-cases (enabled_in s.db n.customer_id n.recipient_id n.notification_type)) [
        | inl on ↦ rw on (rw deliver_lem)
        | inr off ↦ rw off
      ])

-- What the insertion and the audit event keep, a call keeps.
pub notified-keeps :
    (e : Env) (P : State → Type 0) (n : Notice)
    → ((s : State) → P s → P (inserted n e s))
    → ((a : Entry) (s : State) → P s → P (audited a e s))
    → (s : State) → P s
    → P (notified n e s)
unfolding notified
notified-keeps e P n inserts audits s h =
    elim (Bool-cases (enabled_in s.db n.customer_id n.recipient_id n.notification_type)) [
      | inl on ↦ rw on (audits _ _ (inserts s h))
      | inr off ↦ rw off h
    ]

-- The tables of `old`, but for the three that a delivery writes.
abbrev pub with_notices : Db → Db → Db
with_notices old new = record old {
  notifications = new.notifications;
  audit_events = new.audit_events;
  audit_chain_tips = new.audit_chain_tips;
}

-- A delivery writes no other table.
pub db-notified :
    (n : Notice) (e : Env) (s : State) → (notified n e s).db ≡ with_notices s.db (notified n e s).db
unfolding notified
db-notified n e s =
    elim (Bool-cases (enabled_in s.db n.customer_id n.recipient_id n.notification_type)) [
      | inl on ↦ rw on
      | inr off ↦ rw off
    ]
