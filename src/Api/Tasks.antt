-- ===== src/Api/Tasks.antt =====
-- backend/src/doda/api/tasks.py. Each handler takes the context that `get_request_context` gives.
use doda.Base.{ℕ, String, not, ◌||◌, Option, none, some, List, ◌==◌, if◌then◌else◌}
use doda.Base.Table.{find}
use doda.Db.{M, not_found, ◌>>=◌, ◌>>◌, pure, raise, gets}
use doda.Domain.Task.{Task, TaskStatus, TaskHistory, TaskDecision, Reminder}
use doda.Authz.Checks.{authorize_create_task, authorize_task_mutation}
use doda.Task.{
  task_row, create_task, change_task_status, list_task_history, record_task_decision,
  list_task_decisions, list_tasks_for_workspace, Period, generate_task_plan,
}
use doda.Task.Reminders.{
  request_reminder, confirm_reminder, cancel_reminder, list_reminders_for_task,
}
use doda.Api.{RequestContext}
use doda.Api.Actions.{actor_of}

-- `CreateTaskRequest`
pub record CreateTaskRequest : Type 0 where
  pub title : String
  pub due_date : Option ℕ
  pub parent_task_id : Option ℕ

unfoldable pub create_workspace_task : CreateTaskRequest → RequestContext → M Task
create_workspace_task body ctx = do
  authorize_create_task ctx.workspace
  owner_id ← actor_of ctx
  create_task (record {
    customer_id = ctx.workspace.customer_id;
    workspace_id = ctx.workspace.workspace_id;
    owner_id = owner_id;
    title = body.title;
    due_date = body.due_date;
    parent_task_id = body.parent_task_id;
  })

unfoldable pub list_workspace_tasks : Option TaskStatus → ℕ → RequestContext → M (List Task)
list_workspace_tasks status limit ctx =
    list_tasks_for_workspace ctx.workspace.workspace_id status limit

-- The limit is the default of `generate_task_plan`.
unfoldable pub get_workspace_task_plan : Period → RequestContext → M (List Task)
get_workspace_task_plan period ctx = generate_task_plan ctx.workspace.workspace_id period 100

unfoldable pub own_task : ℕ → Option Task → M Task
own_task workspace_id none = raise (not_found "task not found")
own_task workspace_id (some task) =
    if not (task.workspace_id == workspace_id)
    then raise (not_found "task not found")
    else pure task

unfoldable pub get_owned_task : RequestContext → ℕ → M Task
unfolding own_task
get_owned_task ctx task_id = do
  found ← gets (task_row task_id)
  own_task ctx.workspace.workspace_id found

unfoldable pub get_task : ℕ → RequestContext → M Task
get_task task_id ctx = get_owned_task ctx task_id

unfoldable pub change_workspace_task_status : ℕ → TaskStatus → RequestContext → M Task
change_workspace_task_status task_id target_status ctx = do
  task ← get_owned_task ctx task_id
  authorize_task_mutation ctx.workspace task
  actor_id ← actor_of ctx
  change_task_status task target_status actor_id

unfoldable pub get_task_history : ℕ → RequestContext → M (List TaskHistory)
get_task_history task_id ctx = do get_owned_task ctx task_id; list_task_history task_id

unfoldable pub record_workspace_task_decision :
    ℕ → String → String → String → String → RequestContext → M TaskDecision
record_workspace_task_decision task_id variant tradeoff decision reason ctx = do
  task ← get_owned_task ctx task_id
  authorize_task_mutation ctx.workspace task
  actor_id ← actor_of ctx
  record_task_decision task actor_id variant tradeoff decision reason

unfoldable pub get_task_decisions : ℕ → RequestContext → M (List TaskDecision)
get_task_decisions task_id ctx = do get_owned_task ctx task_id; list_task_decisions task_id

unfoldable pub own_reminder : ℕ → ℕ → Option Reminder → M Reminder
own_reminder workspace_id task_id none = raise (not_found "reminder not found")
own_reminder workspace_id task_id (some reminder) =
    if not (reminder.task_id == task_id) || not (reminder.workspace_id == workspace_id)
    then raise (not_found "reminder not found")
    else pure reminder

unfoldable pub get_owned_reminder : RequestContext → ℕ → ℕ → M Reminder
unfolding own_reminder
get_owned_reminder ctx task_id reminder_id = do
  found ← gets (λ db. find (λ r. r.id == reminder_id) db.reminders)
  own_reminder ctx.workspace.workspace_id task_id found

unfoldable pub request_task_reminder : ℕ → ℕ → RequestContext → M Reminder
request_task_reminder task_id remind_at ctx = do
  task ← get_owned_task ctx task_id
  authorize_task_mutation ctx.workspace task
  actor_id ← actor_of ctx
  request_reminder task actor_id remind_at

unfoldable pub get_task_reminders : ℕ → RequestContext → M (List Reminder)
get_task_reminders task_id ctx = do get_owned_task ctx task_id; list_reminders_for_task task_id

unfoldable pub confirm_task_reminder : ℕ → ℕ → ℕ → RequestContext → M Reminder
confirm_task_reminder task_id reminder_id remind_at ctx = do
  task ← get_owned_task ctx task_id
  authorize_task_mutation ctx.workspace task
  reminder ← get_owned_reminder ctx task_id reminder_id
  confirm_reminder reminder remind_at

unfoldable pub cancel_task_reminder : ℕ → ℕ → RequestContext → M Reminder
cancel_task_reminder task_id reminder_id ctx = do
  task ← get_owned_task ctx task_id
  authorize_task_mutation ctx.workspace task
  reminder ← get_owned_reminder ctx task_id reminder_id
  cancel_reminder reminder
