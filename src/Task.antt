-- ===== src/Task.antt =====
-- backend/src/doda/application/task_service.py: tasks, their history and decisions, and plans.
pub mod Progress
pub mod Reminders
use doda.Base.{
  ℕ, ◌+◌, ◌*◌, String, Bool, true, false, not, ◌&&◌, ◌||◌, Option, none, some, List, ltb, leb, ◌==◌,
  is_none, if◌then◌else◌,
}
use doda.Base.Table.{find, select, update, insert, order_by, take}
use doda.Json.{text, object, end, field}
use doda.Db.{
  Db, M, task_parent_not_found, invalid_task_transition, ◌>>=◌, ◌>>◌, pure, raise, raise_if, gets,
  modify, utcnow, uuid4,
}
use doda.Domain.Task.{Task, TaskStatus, TaskHistory, TaskDecision}
use doda.Domain.Notification.{completed_task}
use doda.Notification.{Notice, create_notification}

-- `target in ALLOWED_TASK_TRANSITIONS.get(status, frozenset())`
unfoldable pub allowed : TaskStatus → TaskStatus → Bool
allowed TaskStatus.todo TaskStatus.in_progress = true
allowed TaskStatus.todo TaskStatus.cancelled = true
allowed TaskStatus.in_progress TaskStatus.done = true
allowed TaskStatus.in_progress TaskStatus.cancelled = true
allowed _ _ = false

abbrev pub task_row : ℕ → Db → Option Task
task_row id db = find (λ t. t.id == id) db.tasks

-- A new row of the history.
unfoldable pub add_history : Task → String → Option TaskStatus → TaskStatus → M (Unit {0})
add_history task actor_id from_status to_status = do
  id ← uuid4
  created_at ← utcnow
  modify (λ db. record db {
    task_history =
        insert
          (record {
            id = id;
            created_at = created_at;
            customer_id = task.customer_id;
            task_id = task.id;
            actor_id = actor_id;
            from_status = from_status;
            to_status = to_status;
          })
          db.task_history;
  })

-- The keyword arguments of `create_task`.
pub record NewTask : Type 0 where
  pub customer_id : ℕ
  pub workspace_id : ℕ
  pub owner_id : String
  pub title : String
  pub due_date : Option ℕ
  pub parent_task_id : Option ℕ

abbrev outside : ℕ → Option Task → Bool
outside workspace_id none = true
outside workspace_id (some parent) = not (parent.workspace_id == workspace_id)

abbrev check_parent : ℕ → Option ℕ → M (Unit {0})
check_parent workspace_id none = pure tt
check_parent workspace_id (some parent_task_id) = do
  parent ← gets (task_row parent_task_id)
  raise_if (outside workspace_id parent) task_parent_not_found

unfoldable pub create_task : NewTask → M Task
unfolding add_history
create_task n = do
  check_parent n.workspace_id n.parent_task_id
  id ← uuid4
  created_at ← utcnow
  let task : Task = record {
    id = id;
    created_at = created_at;
    customer_id = n.customer_id;
    workspace_id = n.workspace_id;
    owner_id = n.owner_id;
    title = n.title;
    parent_task_id = n.parent_task_id;
    status = TaskStatus.todo;
    due_date = n.due_date;
  }
  modify (λ db. record db { tasks = insert task db.tasks })
  add_history task n.owner_id none TaskStatus.todo
  pure task

abbrev is_done : TaskStatus → Bool
is_done TaskStatus.done = true
is_done _ = false

abbrev is_cancelled : TaskStatus → Bool
is_cancelled TaskStatus.cancelled = true
is_cancelled _ = false

abbrev row_or : Task → Option Task → Task
row_or stale none = stale
row_or stale (some fresh) = fresh

abbrev pub with_status : TaskStatus → Task → Task
with_status target task = record task { status = target }

abbrev pub owner_notice : Task → Notice
owner_notice task = record {
  customer_id = task.customer_id;
  workspace_id = some task.workspace_id;
  recipient_id = task.owner_id;
  notification_type = completed_task;
  reference_type = "task";
  reference_id = task.id;
  safe_metadata = object (field "title" (text task.title) end);
}

-- The notification of the owner.
notify_owner : Task → TaskStatus → M (Unit {0})
notify_owner task target =
    if is_done target then (do create_notification (owner_notice task); pure tt) else pure tt

-- The task may be stale; the lock refreshes it from its row.
unfoldable pub change_task_status : Task → TaskStatus → String → M Task
unfolding add_history notify_owner allowed
change_task_status stale target actor_id = do
  task ← gets (λ db. row_or stale (task_row stale.id db))
  raise_if (not (allowed task.status target)) (invalid_task_transition task.status target)
  modify (λ db. record db { tasks = update (λ t. t.id == task.id) (with_status target) db.tasks })
  add_history task actor_id (some task.status) target
  notify_owner (with_status target task) target
  pure (with_status target task)

abbrev earlier_history : TaskHistory → TaskHistory → Bool
earlier_history x y = ltb x.created_at y.created_at

unfoldable pub list_task_history : ℕ → M (List TaskHistory)
list_task_history task_id =
    gets (λ db. order_by earlier_history (select (λ h. h.task_id == task_id) db.task_history))

unfoldable pub record_task_decision :
    Task → String → String → String → String → String → M TaskDecision
record_task_decision task actor_id variant tradeoff decision reason = do
  id ← uuid4
  created_at ← utcnow
  let row : TaskDecision = record {
    id = id;
    created_at = created_at;
    customer_id = task.customer_id;
    task_id = task.id;
    actor_id = actor_id;
    variant = variant;
    tradeoff = tradeoff;
    decision = decision;
    reason = reason;
  }
  modify (λ db. record db { task_decisions = insert row db.task_decisions })
  pure row

abbrev earlier_decision : TaskDecision → TaskDecision → Bool
earlier_decision x y = ltb x.created_at y.created_at

unfoldable pub list_task_decisions : ℕ → M (List TaskDecision)
list_task_decisions task_id =
    gets (λ db. order_by earlier_decision (select (λ d. d.task_id == task_id) db.task_decisions))

abbrev max_page_size : ℕ
max_page_size = 200

abbrev pub page : ℕ → ℕ
page limit = if ltb max_page_size limit then max_page_size else limit

abbrev status_index : TaskStatus → ℕ
status_index TaskStatus.todo = 0
status_index TaskStatus.in_progress = 1
status_index TaskStatus.done = 2
status_index TaskStatus.cancelled = 3

abbrev has_status : Option TaskStatus → TaskStatus → Bool
has_status none t = true
has_status (some s) t = status_index t == status_index s

-- `ORDER BY created_at DESC`
abbrev newer : Task → Task → Bool
newer x y = ltb y.created_at x.created_at

unfoldable pub list_tasks_for_workspace : ℕ → Option TaskStatus → ℕ → M (List Task)
list_tasks_for_workspace workspace_id status limit = gets (λ db. take (page limit) (
    order_by newer
      (select (λ t. t.workspace_id == workspace_id && has_status status t.status) db.tasks)))

-- The keys of `PLAN_WINDOWS`, and their windows of one and seven days in microseconds.
pub data Period : Type 0 where
  daily weekly : Period

abbrev pub plan_window : Period → ℕ
plan_window daily = 86400000000
plan_window weekly = 7 * 86400000000

abbrev pub due_within : ℕ → Option ℕ → Bool
due_within horizon none = false
due_within horizon (some due) = leb due horizon

-- `ORDER BY due_date ASC`
abbrev pub due_before : Option ℕ → Option ℕ → Bool
due_before (some a) (some b) = ltb a b
due_before _ _ = false

abbrev pub is_planned : ℕ → ℕ → Task → Bool
is_planned workspace_id horizon t =
    t.workspace_id == workspace_id
    && due_within horizon t.due_date
    && not (is_done t.status || is_cancelled t.status)

unfoldable pub generate_task_plan : ℕ → Period → ℕ → M (List Task)
generate_task_plan workspace_id period limit = do
  now ← utcnow
  gets (λ db. take (page limit) (
      order_by (λ x y. due_before x.due_date y.due_date)
        (select (is_planned workspace_id (now + plan_window period)) db.tasks)))
