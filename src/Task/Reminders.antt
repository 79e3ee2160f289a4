-- ===== src/Task/Reminders.antt =====
-- backend/src/doda/application/task_service.py: reminders.
pub mod Firing
pub mod Rows
use doda.Base.{
  ℕ, String, Bool, true, false, not, ◌&&◌, ◌||◌, Option, none, some, List, [], ◌∷◌, ltb, leb, ◌==◌,
  is_none, if◌then◌else◌,
}
use doda.Base.Table.{find, select, update, insert, order_by}
use doda.Json.{text, object, end, field}
use doda.Db.{
  Db, M, reminder_not_pending, reminder_mismatch, not_found, ◌>>=◌, ◌>>◌, pure, raise_if, gets,
  some_or_raise, modify, utcnow, uuid4,
}
use doda.Domain.Task.{Task, Reminder, ReminderStatus}
use doda.Domain.Notification.{reminder_due}
use doda.Notification.{Notice, create_notification}

unfoldable pub request_reminder : Task → String → ℕ → M Reminder
request_reminder task actor_id remind_at = do
  id ← uuid4
  created_at ← utcnow
  let reminder : Reminder = record {
    id = id;
    created_at = created_at;
    customer_id = task.customer_id;
    workspace_id = task.workspace_id;
    task_id = task.id;
    actor_id = actor_id;
    remind_at = remind_at;
    status = ReminderStatus.pending_confirmation;
    confirmed_at = none;
    fired_at = none;
  }
  modify (λ db. record db { reminders = insert reminder db.reminders })
  pure reminder

abbrev pub is_pending : ReminderStatus → Bool
is_pending ReminderStatus.pending_confirmation = true
is_pending _ = false

abbrev pub is_confirmed : ReminderStatus → Bool
is_confirmed ReminderStatus.confirmed = true
is_confirmed _ = false

abbrev pub write_reminder : ℕ → (Reminder → Reminder) → M (Unit {0})
write_reminder id f =
    modify (λ db. record db { reminders = update (λ r. r.id == id) f db.reminders })

abbrev pub confirmed_now : ℕ → Reminder → Reminder
confirmed_now now r = record r { status = ReminderStatus.confirmed; confirmed_at = some now }

unfoldable pub confirm_reminder : Reminder → ℕ → M Reminder
confirm_reminder reminder remind_at = do
  raise_if (not (is_pending reminder.status)) reminder_not_pending
  raise_if (not (reminder.remind_at == remind_at)) reminder_mismatch
  now ← utcnow
  write_reminder reminder.id (confirmed_now now)
  pure (confirmed_now now reminder)

abbrev pub cancelled_now : Reminder → Reminder
cancelled_now r = record r { status = ReminderStatus.cancelled }

unfoldable pub cancel_reminder : Reminder → M Reminder
cancel_reminder reminder = do
  raise_if (not (is_pending reminder.status || is_confirmed reminder.status)) reminder_not_pending
  write_reminder reminder.id cancelled_now
  pure (cancelled_now reminder)

abbrev earlier_reminder : Reminder → Reminder → Bool
earlier_reminder x y = ltb x.created_at y.created_at

unfoldable pub list_reminders_for_task : ℕ → M (List Reminder)
list_reminders_for_task task_id =
    gets (λ db. order_by earlier_reminder (select (λ r. r.task_id == task_id) db.reminders))

abbrev pub is_due : ℕ → Reminder → Bool
is_due now r = is_confirmed r.status && leb r.remind_at now

-- `Task.id.in_({r.task_id for r in due})`
abbrev pub is_task_of : List Reminder → Task → Bool
is_task_of [] t = false
is_task_of (r ∷ rs) t = t.id == r.task_id || is_task_of rs t

-- `tasks_by_id[reminder.task_id]`, on a dictionary from tasks that differ in their ids.
abbrev pub task_by_id : ℕ → List Task → Option Task
task_by_id id tasks = find (λ t. t.id == id) tasks

abbrev pub fired_now : ℕ → Reminder → Reminder
fired_now now r = record r { status = ReminderStatus.fired; fired_at = some now }

abbrev pub due_notice : Reminder → Task → Notice
due_notice reminder task = record {
  customer_id = reminder.customer_id;
  workspace_id = some reminder.workspace_id;
  recipient_id = reminder.actor_id;
  notification_type = reminder_due;
  reference_type = "task";
  reference_id = task.id;
  safe_metadata = object (field "title" (text task.title) end);
}

-- The loop over the reminders that are due.
unfoldable pub fire_each : ℕ → List Task → List Reminder → M (List Reminder)
fire_each now tasks [] = pure []
fire_each now tasks (reminder ∷ due) = do
  task ← some_or_raise (task_by_id reminder.task_id tasks) (not_found "task")
  create_notification (due_notice reminder task)
  write_reminder reminder.id (fired_now now)
  rest ← fire_each now tasks due
  pure (fired_now now reminder ∷ rest)

abbrev pub reading_or : Option ℕ → M ℕ
reading_or none = utcnow
reading_or (some now) = pure now

-- The customer is the one that the session of the transaction is bound to: the row level security
-- shows the two queries no row of another.
unfoldable pub fire_due_reminders : ℕ → Option ℕ → M (List Reminder)
unfolding fire_each
fire_due_reminders customer_id given = do
  now ← reading_or given
  due ← gets (λ db. select (is_due now) (select (λ r. r.customer_id == customer_id) db.reminders))
  tasks ← gets (λ db. select (is_task_of due) (select (λ t. t.customer_id == customer_id) db.tasks))
  fire_each now tasks due
