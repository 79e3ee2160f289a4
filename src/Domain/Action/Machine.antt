-- ===== src/Domain/Action/Machine.antt =====
-- backend/src/doda/domain/action/state_machine.py
pub mod Table
use doda.Base.{Bool, true, false, if◌then◌else◌}
use doda.Domain.Action.{ActionStatus}

-- `target in ALLOWED_TRANSITIONS.get(current, frozenset())`
unfoldable pub allowed : ActionStatus → ActionStatus → Bool
allowed ActionStatus.draft ActionStatus.validating = true
allowed ActionStatus.draft ActionStatus.cancelled = true
allowed ActionStatus.validating ActionStatus.awaiting_approval = true
allowed ActionStatus.validating ActionStatus.ready = true
allowed ActionStatus.validating ActionStatus.denied = true
allowed ActionStatus.awaiting_approval ActionStatus.ready = true
allowed ActionStatus.awaiting_approval ActionStatus.expired = true
allowed ActionStatus.awaiting_approval ActionStatus.rejected = true
allowed ActionStatus.ready ActionStatus.running = true
allowed ActionStatus.ready ActionStatus.cancelled = true
allowed ActionStatus.running ActionStatus.succeeded = true
allowed ActionStatus.running ActionStatus.failed = true
allowed ActionStatus.running ActionStatus.compensating = true
allowed ActionStatus.failed ActionStatus.retrying = true
allowed ActionStatus.retrying ActionStatus.ready = true
allowed ActionStatus.compensating ActionStatus.compensated = true
allowed ActionStatus.compensating ActionStatus.failed = true
allowed _ _ = false

-- `status in TERMINAL_STATUSES`
unfoldable pub is_terminal : ActionStatus → Bool
is_terminal ActionStatus.succeeded = true
is_terminal ActionStatus.compensated = true
is_terminal ActionStatus.denied = true
is_terminal ActionStatus.rejected = true
is_terminal ActionStatus.expired = true
is_terminal ActionStatus.cancelled = true
is_terminal ActionStatus.failed = true
is_terminal _ = false

-- `transition`: the target, or `InvalidActionTransition(current, target)`.
pub data Outcome : Type 0 where
  moved : ActionStatus → Outcome
  invalid : ActionStatus → ActionStatus → Outcome

unfoldable pub transition : ActionStatus → ActionStatus → Outcome
unfolding allowed
transition current target = if allowed current target then moved target else invalid current target
