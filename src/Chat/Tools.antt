-- ===== src/Chat/Tools.antt =====
-- backend/src/doda/application/ai_tools.py: the registry of the tools that a model may call.
use Prim.Native.String.{◌++◌ as str_append}
use doda.Base.{
  ℕ, String, Bool, true, false, not, Option, none, some, List, [], ◌∷◌, ◌++◌, str_eq, map,
  if◌then◌else◌,
}
use doda.Base.Table.{take}
use doda.Env.{Env, user_actor}
use doda.Db.{
  M, tool_arguments_invalid, tool_not_found, ◌>>=◌, ◌>>◌, pure, raise, asks, raise_if,
  some_or_raise,
}
use doda.Domain.Action.{Action, Approval, r0}
use doda.Domain.Task.{Task, TaskStatus}
use doda.Authz.{WorkspaceContext}
use doda.Task.{list_tasks_for_workspace}
use doda.ActionService.Propose.{propose_action, resolve_replay_approval}
use doda.ActionService.Submit.{submit_action_for_execution}
use doda.Chat.Context.{World}

-- `tool_name in _READ_TOOL_ARGS`
abbrev pub is_read_tool : String → Bool
is_read_tool name = str_eq name "list_my_open_tasks"

-- `tool_name in _WRITE_TOOL_ARGS`
abbrev pub is_write_tool : String → Bool
is_write_tool name = str_eq name "telegram_send_message"

-- `_WRITE_TOOL_ACTION_NAME`
abbrev pub write_tool_action_name : String
write_tool_action_name = "telegram.send_message"

abbrev task_status_value : TaskStatus → String
task_status_value TaskStatus.todo = "TODO"
task_status_value TaskStatus.in_progress = "IN_PROGRESS"
task_status_value TaskStatus.done = "DONE"
task_status_value TaskStatus.cancelled = "CANCELLED"

abbrev concat : List String → String
concat [] = ""
concat (t ∷ ts) = str_append t (concat ts)

-- `"\n".join(lines)`
abbrev joined_lines : List String → String
joined_lines [] = ""
joined_lines (t ∷ ts) = str_append t (concat (map (str_append "\n") ts))

abbrev task_line : Env → Task → String
task_line e t =
    concat
      ("- [" ∷ task_status_value t.status ∷ "] " ∷ t.title ∷ " (id=" ∷ e.str_uuid t.id ∷ ")" ∷ [])

abbrev shown_tasks : Env → List Task → String
shown_tasks e [] = "No open tasks."
shown_tasks e (t ∷ ts) = joined_lines (map (task_line e) (t ∷ ts))

-- The read tool, once its arguments are validated.
unfoldable pub list_my_open_tasks : ℕ → ℕ → M String
list_my_open_tasks workspace_id limit = do
  todo ← list_tasks_for_workspace workspace_id (some TaskStatus.todo) limit
  in_progress ← list_tasks_for_workspace workspace_id (some TaskStatus.in_progress) limit
  asks (λ e. shown_tasks e (take limit (todo ++ in_progress)))

unfoldable pub dispatch_read_tool : World → String → String → ℕ → M String
unfolding list_my_open_tasks
dispatch_read_tool w tool_name arguments_json workspace_id =
    if is_read_tool tool_name
    then (do
      limit ←
          some_or_raise (w.list_tasks_arguments arguments_json) (tool_arguments_invalid tool_name)
      list_my_open_tasks workspace_id limit)
    else raise (tool_not_found tool_name)

-- What follows `propose_action`.
unfoldable pub submit_if_created : String → Action × Bool → M (Action × Option Approval)
submit_if_created actor_id (action, true) = submit_action_for_execution action actor_id
submit_if_created actor_id (action, false) = do
  approval ← resolve_replay_approval action actor_id
  pure (action, approval)

-- The proposal, once the arguments are validated.
unfoldable pub propose_validated :
    World → String → WorkspaceContext → ℕ → String → M (Action × Option Approval)
unfolding submit_if_created
propose_validated w arguments_json context trace_id idempotency_key = do
  actor_id ← asks (λ e. user_actor e context.user_id)
  proposed ← propose_action (record {
    customer_id = context.customer_id;
    workspace_id = context.workspace_id;
    trace_id = trace_id;
    actor_id = actor_id;
    tool_name = write_tool_action_name;
    risk_level = r0;
    payload = w.json_loads arguments_json;
    idempotency_key = idempotency_key;
    task_id = none;
  })
  submit_if_created actor_id proposed

unfoldable pub propose_write_tool_action :
    World → String → String → WorkspaceContext → ℕ → String → M (Action × Option Approval)
unfolding propose_validated
propose_write_tool_action w tool_name arguments_json context trace_id idempotency_key =
    if is_write_tool tool_name
    then (do
      raise_if (not (w.telegram_arguments arguments_json)) (tool_arguments_invalid tool_name)
      propose_validated w arguments_json context trace_id idempotency_key)
    else raise (tool_not_found tool_name)
