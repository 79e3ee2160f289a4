-- ===== src/ActionService/Transition/Effect.antt =====
-- The effect of `apply_transition`, in closed form, on each of its branches.
use doda.Base.{
  ℕ, String, true, false, ◌&&◌, Option, some, ◌≡◌, ◌≢◌, ◌∙◌, ap, refl, ==_refl, arith, ◌==◌,
  is_none, inl, inr, Bool-cases, if◌then◌else◌,
}
use doda.Base.Table.{update}
use doda.Base.Table.Laws.{find_holds, find-update_self, find-update_other}
use doda.Json.{Json, text, object, end, field}
use doda.Env.{Env}
use doda.Db.{Db, State, Result, ok, err, invalid_action_transition, missing_provider_receipt}
use doda.Domain.Action.{Action, ActionStatus}
use doda.Domain.Action.Machine.{moved, invalid, allowed, transition}
use doda.Domain.Notification.{pending_approval, failed_action}
use doda.Audit.{Entry}
use doda.Audit.Record.{audited, record_audit_event_lem}
use doda.Notification.{Notice}
use doda.Notification.Delivery.{notified, create_notification_lem, with_notices, db-notified}
use doda.ActionService.Propose.{risk_value}
use doda.ActionService.Transition.{
  action_row, needs_receipt, receipt_json, status_value, transition_event, transition_entry,
  notify_target, complete_transition, apply_transition, reload,
}

-- The audit event of an accepted transition.
abbrev pub moved_entry : Env → Action → ActionStatus → String → Option Json → Entry
moved_entry e action target actor_id receipt =
    transition_entry action actor_id (transition_event target) (
      object (
        field "action_id" (text (e.str_uuid action.id)) (
          field "from" (text (status_value action.status)) (
            field "to" (text (status_value target))
              (field "provider_receipt" (receipt_json receipt) end)))))

-- The audit event of a refused one.
abbrev pub refused_entry : Env → Action → ActionStatus → String → Entry
refused_entry e action target actor_id =
    transition_entry action actor_id "action.transition_rejected.v1" (
      object (
        field "action_id" (text (e.str_uuid action.id)) (
          field "from" (text (status_value action.status))
            (field "to" (text (status_value target)) end))))

-- The state with the new status written.
abbrev pub with_status : ℕ → ActionStatus → State → State
with_status id target s = record s {
  db = record s.db {
    actions = update (λ a. a.id == id) (λ a. record a { status = target }) s.db.actions;
  };
}

abbrev approval_notice : Action → Notice
approval_notice action = record {
  customer_id = action.customer_id;
  workspace_id = some action.workspace_id;
  recipient_id = action.actor_id;
  notification_type = pending_approval;
  reference_type = "action";
  reference_id = action.id;
  safe_metadata = object (
      field "tool_name" (text action.tool_name)
        (field "risk_level" (text (risk_value action.risk_level)) end));
}

abbrev failure_notice : Action → Notice
failure_notice action = record {
  customer_id = action.customer_id;
  workspace_id = some action.workspace_id;
  recipient_id = action.actor_id;
  notification_type = failed_action;
  reference_type = "action";
  reference_id = action.id;
  safe_metadata = object (field "tool_name" (text action.tool_name) end);
}

-- The notification that a target brings, and none for the others.
unfoldable pub notice_sent : ActionStatus → Action → Env → State → State
notice_sent ActionStatus.awaiting_approval action e s = notified (approval_notice action) e s
notice_sent ActionStatus.failed action e s = notified (failure_notice action) e s
notice_sent _ action e s = s

notify_target_lem :
    (target : ActionStatus) (action : Action) (e : Env) (s : State)
    → notify_target target action e s ≡ (ok tt, notice_sent target action e s)
unfolding notify_target notice_sent
notify_target_lem ActionStatus.awaiting_approval action e s = rw create_notification_lem
notify_target_lem ActionStatus.failed action e s = rw create_notification_lem
notify_target_lem _ action e s = refl

-- The state that an accepted transition of the row `action` leaves.
unfoldable pub transitioned : Action → ActionStatus → String → Option Json → Env → State → State
transitioned action target actor_id receipt e s =
    notice_sent target (record action { status = target }) e
      (audited (moved_entry e action target actor_id receipt) e (with_status action.id target s))

pub complete_moved :
    (action : Action) (actor_id : String) (receipt : Option Json) (target : ActionStatus) (e : Env)
    (s : State)
    → complete_transition action actor_id receipt (moved target) e s
      ≡ (ok (record action { status = target }), transitioned action target actor_id receipt e s)
unfolding complete_transition transitioned
complete_moved action actor_id receipt target e s = rw record_audit_event_lem (rw notify_target_lem)

pub complete_invalid :
    (action : Action) (actor_id : String) (receipt : Option Json) (target : ActionStatus) (e : Env)
    (s : State)
    → complete_transition action actor_id receipt (invalid action.status target) e s ≡ (
      err (invalid_action_transition action.status target),
      audited (refused_entry e action target actor_id) e s,
    )
unfolding complete_transition
complete_invalid action actor_id receipt target e s = rw record_audit_event_lem

-- What `apply_transition` returns and leaves, where `fresh` is the object as the lock refreshed it.
abbrev pub transition_result :
    Action → ActionStatus → String → Option Json → Env → State → Result Action × State
transition_result fresh target actor_id receipt e s =
    if needs_receipt target && is_none receipt
    then (err (missing_provider_receipt fresh.id), s)
    else if allowed fresh.status target
    then (ok (record fresh { status = target }), transitioned fresh target actor_id receipt e s)
    else (
      err (invalid_action_transition fresh.status target),
      audited (refused_entry e fresh target actor_id) e s,
    )

-- `apply_transition` on every branch, for an object whose row is `fresh`: a missing receipt raises
-- and changes nothing; a transition that the table allows for the row's status writes the new
-- status, one audit event, and the notification of its target; any other raises and writes one
-- audit event.
pub apply_transition_lem :
    (action fresh : Action) (target : ActionStatus) (actor_id : String) (receipt : Option Json)
    (e : Env) (s : State)
    → action_row action.id s.db ≡ some fresh
    → apply_transition action target actor_id receipt e s
      ≡ transition_result fresh target actor_id receipt e s
unfolding apply_transition reload transition
apply_transition_lem action fresh target actor_id receipt e s found =
    let same : action.id ≡ fresh.id =
      ground (arith, find_holds (λ (a : Action). a.id == action.id) s.db.actions fresh found) in
    elim (Bool-cases (needs_receipt target && is_none receipt)) [
      | inl bare ↦ rw bare (ground (arith, same))
      | inr fine ↦
          rw (fine, found)
            (elim (Bool-cases (allowed fresh.status target)) [
              | inl good ↦ rw good (rw complete_moved)
              | inr bad ↦ rw bad (rw complete_invalid)
            ])
    ]

db-notice_sent :
    (target : ActionStatus) (action : Action) (e : Env) (s : State)
    → (notice_sent target action e s).db ≡ with_notices s.db (notice_sent target action e s).db
unfolding notice_sent
db-notice_sent ActionStatus.awaiting_approval action e s = db-notified (approval_notice action) e s
db-notice_sent ActionStatus.failed action e s = db-notified (failure_notice action) e s
db-notice_sent _ action e s = refl

-- An accepted transition writes the status of one action, and beside it only audit events, chain
-- tips and notifications.
pub db-transitioned :
    (action : Action) (target : ActionStatus) (actor_id : String) (receipt : Option Json) (e : Env)
    (s : State)
    → let s' = transitioned action target actor_id receipt e s in
      s'.db ≡ with_notices (with_status action.id target s).db s'.db
unfolding transitioned
db-transitioned action target actor_id receipt e s =
    db-notice_sent target (record action { status = target }) e
      (audited (moved_entry e action target actor_id receipt) e (with_status action.id target s))

module _ (action : Action) (target : ActionStatus) (actor_id : String) (receipt : Option Json)
    (e : Env) (s : State) where
  abbrev left : Db
  left = (transitioned action target actor_id receipt e s).db

  pub approvals-transitioned : left.approvals ≡ s.db.approvals
  approvals-transitioned =
      ap (λ (db : Db). db.approvals) (db-transitioned action target actor_id receipt e s)

  pub outbox-transitioned : left.outbox ≡ s.db.outbox
  outbox-transitioned =
      ap (λ (db : Db). db.outbox) (db-transitioned action target actor_id receipt e s)

  pub actions-transitioned : left.actions ≡ (with_status action.id target s).db.actions
  actions-transitioned =
      ap (λ (db : Db). db.actions) (db-transitioned action target actor_id receipt e s)

  -- The row has the new status.
  pub row-transitioned :
      action_row action.id s.db ≡ some action
      → action_row action.id left ≡ some (record action { status = target })
  row-transitioned found = rw actions-transitioned (
      find-update_self (λ (a : Action). a.id == action.id)
        (λ (a : Action). record a { status = target }) action s.db.actions (==_refl action.id)
        found)

  -- Every other row is as it was.
  pub row-transitioned_other : (id : ℕ) → action.id ≢ id → action_row id left ≡ action_row id s.db
  row-transitioned_other id ne = rw actions-transitioned (
      find-update_other (λ (a : Action). a.id == action.id) (λ (a : Action). a.id == id)
        (λ (a : Action). record a { status = target }) s.db.actions (λ x h. ground arith)
        (λ x h. ground arith))

-- The branch that is taken where the table allows the transition.
pub apply_transition_ok :
    (action fresh : Action) (target : ActionStatus) (actor_id : String) (receipt : Option Json)
    (e : Env) (s : State)
    → action_row action.id s.db ≡ some fresh
    → (needs_receipt target && is_none receipt) ≡ false
    → allowed fresh.status target ≡ true
    → apply_transition action target actor_id receipt e s
      ≡ (ok (record fresh { status = target }), transitioned fresh target actor_id receipt e s)
apply_transition_ok action fresh target actor_id receipt e s found fine good =
    apply_transition_lem action fresh target actor_id receipt e s found ∙ rw fine (rw good)

-- The branch that is taken where it does not.
pub apply_transition_err :
    (action fresh : Action) (target : ActionStatus) (actor_id : String) (receipt : Option Json)
    (e : Env) (s : State)
    → action_row action.id s.db ≡ some fresh
    → (needs_receipt target && is_none receipt) ≡ false
    → allowed fresh.status target ≡ false
    → apply_transition action target actor_id receipt e s ≡ (
      err (invalid_action_transition fresh.status target),
      audited (refused_entry e fresh target actor_id) e s,
    )
apply_transition_err action fresh target actor_id receipt e s found fine bad =
    apply_transition_lem action fresh target actor_id receipt e s found ∙ rw fine (rw bad)
