-- ===== src/Tests/Work.antt =====
-- Examples: tasks and reminders.
use doda.Base.{true, false, none, some, [], ◌∷◌, ◌≡◌, ◌⊎◌, ◌==◌, map, refl}
use doda.Base.Table.{find}
use doda.Db.{State, ok, err, invalid_task_transition}
use doda.Domain.Task.{Task, TaskStatus, TaskHistory, Reminder, ReminderStatus}
use doda.Task.{allowed, task_row, change_task_status}
use doda.Task.Progress.{IsChange, change_task_status_decides}
use doda.Task.Reminders.{fire_due_reminders}
use doda.Task.Reminders.Firing.{IsDue, told, told_of, fire_due_reminders_complete}
use doda.Base.Table.{length}
use doda.Json.{null}
use doda.Db.{transport_error}
use doda.Domain.Outbox.{OutboxMessage}
use doda.Relay.{relay_once}
use doda.Relay.Delivery.{among, ArePublished, relay_once_decides}
use doda.Tests.Data.{demo, empty, at_start}

abbrev task : Task
task = record {
  id = 4;
  created_at = 1;
  customer_id = 1;
  workspace_id = 2;
  owner_id = "user:id";
  title = "write";
  parent_task_id = none;
  status = TaskStatus.in_progress;
  due_date = none;
}

abbrev reminder : Reminder
reminder = record {
  id = 8;
  created_at = 2;
  customer_id = 1;
  workspace_id = 2;
  task_id = 4;
  actor_id = "user:id";
  remind_at = 90;
  status = ReminderStatus.confirmed;
  confirmed_at = some 50;
  fired_at = none;
}

abbrev board : State
board = at_start (record empty { tasks = task ∷ []; reminders = reminder ∷ [] })

change_task_status_decides_example :
    let stale = record task { status = TaskStatus.todo } in
    let (r, s') = change_task_status stale TaskStatus.done "user:id" demo board in
    ((allowed TaskStatus.in_progress TaskStatus.done ≡ true)
      × (r ≡ ok (record task { status = TaskStatus.done }))
      × (task_row 4 s'.db ≡ some (record task { status = TaskStatus.done }))
      × ((h : TaskHistory) × IsChange task TaskStatus.done "user:id" h
          × (s'.db.task_history ≡ h ∷ [])))
    ⊎ ((allowed TaskStatus.in_progress TaskStatus.done ≡ false)
        × (r ≡ err (invalid_task_transition TaskStatus.in_progress TaskStatus.done))
        × (s' ≡ board))
change_task_status_decides_example =
    change_task_status_decides (record task { status = TaskStatus.todo }) task TaskStatus.done
      "user:id" demo board refl

fire_due_reminders_complete_example :
    let (r, s') = fire_due_reminders 1 (some 95) demo board in
    let fired = record reminder { status = ReminderStatus.fired; fired_at = some 95 } in
    (r ≡ ok (fired ∷ []))
    × ((IsDue 1 95 reminder × (find (λ y. y.id == 8) s'.db.reminders ≡ some fired))
        ⊎ ((¬ IsDue 1 95 reminder) × (find (λ y. y.id == 8) s'.db.reminders ≡ some reminder)))
    × (map told s'.db.notifications ≡ told_of reminder ∷ [])
fire_due_reminders_complete_example =
    fire_due_reminders_complete 1 95 demo board reminder (refl, tt) ((task, refl), tt) refl

abbrev message : OutboxMessage
message = record {
  id = 20;
  created_at = 5;
  customer_id = 1;
  aggregate_type = "action";
  aggregate_id = 5;
  event_type = "action.ready.v1";
  payload = null;
  attempts = 0;
  published_at = none;
}

relay_once_decides_example :
    let s = at_start (record empty { outbox = message ∷ [] }) in
    let (r, s') = relay_once (λ m. true) (λ m. false) 50 demo s in
    ((r ≡ ok (length (message ∷ [])))
      × (s'.sent ≡ message ∷ [])
      × ArePublished (λ i. among i (message ∷ [])) s'.db.outbox)
    ⊎ ((r ≡ err transport_error)
        × (s'.db ≡ s.db)
        × ((m : OutboxMessage) × (among m.id (message ∷ []) ≡ true) × (true ≡ false)))
relay_once_decides_example =
    relay_once_decides (λ m. true) (λ m. false) 50 demo
      (at_start (record empty { outbox = message ∷ [] }))
