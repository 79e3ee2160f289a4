-- ===== src/ActionService/Transition/Cancel.antt =====
-- What a request to cancel an action does to the stored actions.
use doda.Base.{
  ℕ, String, true, false, none, some, ◌≡◌, ◌≢◌, ◌⊎◌, refl, ap, sym, ◌∙◌, arith, ◌==◌, inl, inr,
  Bool-cases,
}
use doda.Base.Table.Laws.{find_holds}
use doda.Env.{Env}
use doda.Db.{State, Error, Result, ok, err, action_not_cancellable, invalid_action_transition}
use doda.Domain.Action.{Action, ActionStatus}
use doda.Domain.Action.Machine.{allowed}
use doda.ActionService.Transition.{
  action_row, request_cancellation, cancel_from, apply_transition, needs_receipt,
}
use doda.ActionService.Transition.Effect.{
  apply_transition_ok, apply_transition_err, row-transitioned, row-transitioned_other,
}

-- The status that a cancellation gives, by the status that the caller has seen and the stored one.
abbrev pub IsMove : ActionStatus → ActionStatus → ActionStatus → Type 0
IsMove seen stored after =
    ((seen ≡ ActionStatus.ready)
      × ((stored ≡ ActionStatus.draft) ⊎ (stored ≡ ActionStatus.ready))
      × (after ≡ ActionStatus.cancelled))
    ⊎ ((seen ≡ ActionStatus.running)
        × (stored ≡ ActionStatus.running)
        × (after ≡ ActionStatus.compensating))

-- The row has the status, the call returns it, and every other action is as it was.
pub record IsMoved (row : Action) (after : ActionStatus) (s : State) (out : Result Action × State)
    : Type 0 where
  pub returned : out.0 ≡ ok (record row { status = after })
  pub stored : action_row row.id out.1.db ≡ some (record row { status = after })
  pub others : (id : ℕ) → row.id ≢ id → action_row id out.1.db ≡ action_row id s.db

-- The call raises, and no action has changed.
pub record IsUnmoved (s : State) (out : Result Action × State) : Type 0 where
  pub error : Error
  pub raised : out.0 ≡ err error
  pub same : out.1.db.actions ≡ s.db.actions

into_cancelled :
    (status : ActionStatus)
    → allowed status ActionStatus.cancelled ≡ true
    → (status ≡ ActionStatus.draft) ⊎ (status ≡ ActionStatus.ready)
unfolding allowed
into_cancelled status h = ground arith

into_compensating :
    (status : ActionStatus)
    → allowed status ActionStatus.compensating ≡ true
    → status ≡ ActionStatus.running
unfolding allowed
into_compensating status h = ground arith

out_of_cancelled :
    (status : ActionStatus)
    → allowed status ActionStatus.cancelled ≡ false
    → ¬ ((status ≡ ActionStatus.draft) ⊎ (status ≡ ActionStatus.ready))
unfolding allowed
out_of_cancelled status bad (inl is) = let no' = rw is at bad in cc
out_of_cancelled status bad (inr is) = let no' = rw is at bad in cc

out_of_compensating :
    (status : ActionStatus)
    → allowed status ActionStatus.compensating ≡ false
    → status ≢ ActionStatus.running
unfolding allowed
out_of_compensating status bad is = let no' = rw is at bad in cc

module _ (action row : Action) (actor_id : String) (e : Env) (s : State)
    (found : action_row action.id s.db ≡ some row) where
  -- A call of `apply_transition` writes the target where the table allows it for the stored row.
  applied_cases :
      (target : ActionStatus)
      → needs_receipt target ≡ false
      → let out = apply_transition action target actor_id none e s in
        ((allowed row.status target ≡ true) × IsMoved row target s out)
        ⊎ ((allowed row.status target ≡ false) × IsUnmoved s out)
  applied_cases target plain =
      let same : action.id ≡ row.id =
        ground (arith, find_holds (λ (a : Action). a.id == action.id) s.db.actions row found) in
      let found' : action_row row.id s.db ≡ some row =
        ap (λ (id : ℕ). action_row id s.db) (sym same) ∙ found in
      elim (Bool-cases (allowed row.status target)) [
        | inl good ↦ inl (
          good,
          rw (apply_transition_ok action row target actor_id none e s found (rw plain refl) good)
              (record {
                returned = refl;
                stored = row-transitioned row target actor_id none e s found';
                others = row-transitioned_other row target actor_id none e s;
              }),
        )
        | inr bad ↦ inr (
          bad,
          rw (apply_transition_err action row target actor_id none e s found (rw plain refl) bad)
              (record {
                error = invalid_action_transition row.status target;
                raised = refl;
                same = refl;
              }),
        )
      ]

  cancel_from_decides :
      (seen : ActionStatus)
      → let out = cancel_from seen action actor_id e s in
        ((after : ActionStatus) × IsMove seen row.status after × IsMoved row after s out)
        ⊎ ((¬ ((after : ActionStatus) × IsMove seen row.status after)) × IsUnmoved s out)
  unfolding cancel_from
  cancel_from_decides ActionStatus.ready = elim (applied_cases ActionStatus.cancelled refl) [
    | inl (good, moved) ↦
        inl (ActionStatus.cancelled, inl (refl, into_cancelled row.status good, refl), moved)
    | inr (bad, unmoved) ↦ inr (
      (λ (after, move). elim move [
        | inl (seen, stored, is) ↦ out_of_cancelled row.status bad stored
        | inr (seen, stored, is) ↦ cc
      ]),
      unmoved,
    )
  ]
  cancel_from_decides ActionStatus.running = elim (applied_cases ActionStatus.compensating refl) [
    | inl (good, moved) ↦
        inl (ActionStatus.compensating, inr (refl, into_compensating row.status good, refl), moved)
    | inr (bad, unmoved) ↦ inr (
      (λ (after, move). elim move [
        | inl (seen, stored, is) ↦ cc
        | inr (seen, stored, is) ↦ out_of_compensating row.status bad stored
      ]),
      unmoved,
    )
  ]
  cancel_from_decides other = inr (
    (λ (after, move). elim move [ inl (seen, stored, is) ↦ cc | inr (seen, stored, is) ↦ cc ]),
    record { error = action_not_cancellable action.id other; raised = refl; same = refl },
  )

  -- A request to cancel a stored action, by a caller's copy of it that may be stale, either marks
  -- its row, returns it and leaves every other action as it was, or raises and changes no action. A
  -- caller that has seen READY marks a READY row as CANCELLED, and a DRAFT one too; one that has seen
  -- RUNNING marks a RUNNING row as COMPENSATING; and in every other case the request raises.
  pub cancellation_moves :
      let out = request_cancellation action actor_id e s in
      ((after : ActionStatus) × IsMove action.status row.status after × IsMoved row after s out)
      ⊎ ((¬ ((after : ActionStatus) × IsMove action.status row.status after)) × IsUnmoved s out)
  unfolding request_cancellation
  cancellation_moves = cancel_from_decides action.status
