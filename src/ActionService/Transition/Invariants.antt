-- ===== src/ActionService/Transition/Invariants.antt =====
-- What `apply_transition` keeps: whatever its writes keep, on every branch.
use doda.Base.{
  ◌≡◌, ◌==◌, refl, arith, ap, Bool, Option-cases, String, true, false, ◌&&◌, Option, none, is_none,
  Bool-cases, inl, inr,
}
use doda.Json.{Json}
use doda.Env.{Env}
use doda.Base.Table.Laws.{find_holds}
use doda.Db.{Db, State, Result, ok, err}
use doda.Db.Keeps.{Keeps}
use doda.Domain.Action.{Action, ActionStatus}
use doda.Domain.Action.Machine.{transition, allowed}
use doda.Audit.{Entry}
use doda.Audit.Record.{audited}
use doda.Notification.{Notice}
use doda.Notification.Delivery.{inserted, notified, notified-keeps}
use doda.ActionService.Transition.{
  action_row, row_or, needs_receipt, apply_transition, reload, cancel_from, request_cancellation,
  complete_with, complete_compensation,
}
use doda.ActionService.Transition.Effect.{
  with_status, notice_sent, complete_moved, complete_invalid, transitioned, moved_entry,
}

-- The refreshed object has the id that was asked for.
pub row_or_id :
    (action : Action) (db : Db) → (row_or action (action_row action.id db)).id ≡ action.id
row_or_id action db = elim (Option-cases (action_row action.id db)) [
  | inl missing ↦ rw missing refl
  | inr (a, found) ↦
      rw found (ground (arith, find_holds (λ (x : Action). x.id == action.id) db.actions a found))
]

abbrev pub is_ready : ActionStatus → Bool
is_ready ActionStatus.ready = true
is_ready _ = false

action_or : Action → Result Action → Action
action_or other (ok a) = a
action_or other (err x) = other

module _ (e : Env) (P : State → Type 0) (audits : (a : Entry) (s : State) → P s → P (audited a e s))
    (inserts : (n : Notice) (s : State) → P s → P (inserted n e s)) where
  notifies : (n : Notice) (s : State) → P s → P (notified n e s)
  notifies n = notified-keeps e P n (inserts n) audits

  notice_sent-keeps :
      (target : ActionStatus) (action : Action) (s : State)
      → P s
      → P (notice_sent target action e s)
  unfolding notice_sent
  notice_sent-keeps ActionStatus.awaiting_approval action s h = notifies _ s h
  notice_sent-keeps ActionStatus.failed action s h = notifies _ s h
  notice_sent-keeps _ action s h = h

  pub transitioned-keeps :
      (action : Action) (target : ActionStatus) (actor_id : String) (receipt : Option Json)
      (s : State)
      → P (with_status action.id target s)
      → P (transitioned action target actor_id receipt e s)
  unfolding transitioned
  transitioned-keeps action target actor_id receipt s h =
      notice_sent-keeps target _ _ (audits (moved_entry e action target actor_id receipt) _ h)

  -- The call keeps what its writes keep: the audit event, the notification, and the status, which it
  -- writes only where the table allows it.
  pub apply_transition-Keeps :
      (action : Action) (target : ActionStatus) (actor_id : String) (receipt : Option Json)
      → ((s : State)
          → P s
          → allowed (row_or action (action_row action.id s.db)).status target ≡ true
          → P (with_status (row_or action (action_row action.id s.db)).id target s))
      → Keeps e P (apply_transition action target actor_id receipt)
  unfolding apply_transition reload transition
  apply_transition-Keeps action target actor_id receipt writes = record {
    at = λ s h.
        let row = row_or action (action_row action.id s.db) in
        elim (Bool-cases (needs_receipt target && is_none receipt)) [
          | inl bare ↦ rw bare h
          | inr fine ↦ rw fine (elim (Bool-cases (allowed row.status target)) [
            | inl good ↦ rw good (
                rw complete_moved
                  (transitioned-keeps row target actor_id receipt s (writes s h good)))
            | inr bad ↦ rw bad (rw (complete_invalid row actor_id receipt target) (audits _ s h))
          ])
        ];
  }

  -- A call that returns has written the status, where the table allows it.
  pub apply_transition_returned :
      (action : Action) (target : ActionStatus) (actor_id : String) (receipt : Option Json)
      (s : State) (x : Action)
      → (apply_transition action target actor_id receipt e s).0 ≡ ok x
      → (allowed (row_or action (action_row action.id s.db)).status target ≡ true
          → P (with_status (row_or action (action_row action.id s.db)).id target s))
      → P (apply_transition action target actor_id receipt e s).1
  unfolding apply_transition reload transition
  apply_transition_returned action target actor_id receipt s x returned written =
      let row = row_or action (action_row action.id s.db) in
      elim (Bool-cases (needs_receipt target && is_none receipt)) [
        | inl bare ↦ let returned' = rw bare at returned in cc
        | inr fine ↦
            let returned' = rw fine at returned in
            rw fine (elim (Bool-cases (allowed row.status target)) [
              | inl good ↦ rw good (
                  rw (complete_moved row actor_id receipt target)
                    (transitioned-keeps row target actor_id receipt s (written good)))
              | inr bad ↦
                  let returned'' = rw bad at returned' in
                  let refused = rw (complete_invalid row actor_id receipt target) at returned'' in
                  cc
            ])
      ]

-- What a call that returns returns: the refreshed object with the new status.
pub apply_transition_value :
    (action : Action) (target : ActionStatus) (actor_id : String) (receipt : Option Json) (e : Env)
    (s : State) (x : Action)
    → (apply_transition action target actor_id receipt e s).0 ≡ ok x
    → record (row_or action (action_row action.id s.db)) { status = target } ≡ x
unfolding apply_transition reload transition action_or
apply_transition_value action target actor_id receipt e s x returned =
    let row = row_or action (action_row action.id s.db) in
    elim (Bool-cases (needs_receipt target && is_none receipt)) [
      | inl bare ↦ let returned' = rw bare at returned in cc
      | inr fine ↦
          let returned' = rw fine at returned in
          elim (Bool-cases (allowed row.status target)) [
            | inl good ↦
                let returned'' = rw good at returned' in
                let moves = rw (complete_moved row actor_id receipt target) at returned'' in
                ap (action_or x) moves
            | inr bad ↦
                let returned'' = rw bad at returned' in
                let refused = rw (complete_invalid row actor_id receipt target) at returned'' in cc
          ]
    ]

module _ (e : Env) (P : State → Type 0) (action : Action) (actor_id : String)
    (moves : (target : ActionStatus)
      → is_ready target ≡ false
      → Keeps e P (apply_transition action target actor_id none)) where
  cancel_from-Keeps : (status : ActionStatus) → Keeps e P (cancel_from status action actor_id)
  unfolding cancel_from
  cancel_from-Keeps ActionStatus.ready = moves ActionStatus.cancelled refl
  cancel_from-Keeps ActionStatus.running = moves ActionStatus.compensating refl
  cancel_from-Keeps _ = record { at = λ s h. h }

  -- A cancellation keeps what the transitions to other targets than READY keep.
  pub request_cancellation-Keeps : Keeps e P (request_cancellation action actor_id)
  unfolding request_cancellation
  request_cancellation-Keeps = cancel_from-Keeps action.status

  -- So does the end of a compensation.
  pub complete_compensation-Keeps :
      (outcome : ActionStatus) → Keeps e P (complete_compensation action outcome actor_id)
  unfolding complete_compensation complete_with
  complete_compensation-Keeps ActionStatus.compensated = moves ActionStatus.compensated refl
  complete_compensation-Keeps ActionStatus.failed = moves ActionStatus.failed refl
  complete_compensation-Keeps _ = record { at = λ s h. h }
