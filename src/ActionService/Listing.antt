-- ===== src/ActionService/Listing.antt =====
-- `list_actions_for_workspace`
use doda.Base.{ℕ, Bool, true, ◌&&◌, Option, none, some, List, ltb, ◌==◌, if◌then◌else◌}
use doda.Base.Table.{select, order_by, take}
use doda.Db.{M, gets}
use doda.Domain.Action.{Action, ActionStatus}

abbrev status_index : ActionStatus → ℕ
status_index ActionStatus.draft = 0
status_index ActionStatus.validating = 1
status_index ActionStatus.awaiting_approval = 2
status_index ActionStatus.ready = 3
status_index ActionStatus.running = 4
status_index ActionStatus.succeeded = 5
status_index ActionStatus.failed = 6
status_index ActionStatus.retrying = 7
status_index ActionStatus.compensating = 8
status_index ActionStatus.compensated = 9
status_index ActionStatus.denied = 10
status_index ActionStatus.rejected = 11
status_index ActionStatus.expired = 12
status_index ActionStatus.cancelled = 13

abbrev pub has_status : Option ActionStatus → ActionStatus → Bool
has_status none t = true
has_status (some s) t = status_index t == status_index s

abbrev newer : Action → Action → Bool
newer x y = ltb y.created_at x.created_at

abbrev pub max_page_size : ℕ
max_page_size = 200

abbrev smaller : ℕ → ℕ → ℕ
smaller a b = if ltb b a then b else a

unfoldable pub list_actions_for_workspace : ℕ → Option ActionStatus → ℕ → M (List Action)
list_actions_for_workspace workspace_id status limit = gets λ db.
    take (smaller limit max_page_size) (
      order_by newer
        (select (λ a. a.workspace_id == workspace_id && has_status status a.status) db.actions))
