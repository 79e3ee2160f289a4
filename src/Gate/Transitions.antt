-- ===== src/Gate/Transitions.antt =====
-- The gate under `apply_transition`: every target but READY keeps it, and READY keeps it for an action
-- that has what it takes.
use doda.Base.{
  ℕ, String, true, false, Option, none, some, ◌≡◌, ◌⊎◌, refl, ap, sym, ◌∙◌, arith, ◌==◌, inl, inr,
  Option-cases,
}
use doda.Base.Table.Any.{any, changed, find-update}
use doda.Base.Table.Laws.{find_holds}
use doda.Json.{Json}
use doda.Env.{Env}
use doda.Db.{State, ok}
use doda.Db.Keeps.{Keeps}
use doda.Domain.Action.{Action, ActionStatus, auto_approved}
use doda.Domain.Action.Machine.{allowed}
use doda.ActionService.Transition.{action_row, row_or, apply_transition}
use doda.ActionService.Transition.Effect.{with_status}
use doda.ActionService.Transition.Invariants.{
  is_ready, row_or_id, apply_transition-Keeps, apply_transition_returned, apply_transition_value,
}
use doda.Gate.Rows.{past_gate, approves, Gate, Gate-status}

-- Nothing gets past the gate but through READY.
past_stays :
    (from target : ActionStatus)
    → allowed from target ≡ true
    → is_ready target ≡ false
    → past_gate target ≡ true
    → past_gate from ≡ true
unfolding allowed
past_stays from target good other past = ground (arith, good, other, past)

-- If the risk of the row wants an approval, there is one.
abbrev pub IsEntitled : ℕ → State → Type 0
IsEntitled id s =
    (a : Action)
    → action_row id s.db ≡ some a
    → auto_approved a.risk_level ≡ false
    → any (approves a.id a.payload_hash) s.db.approvals ≡ true

module _ (e : Env) (action : Action) (target : ActionStatus) (actor_id : String)
    (receipt : Option Json) where
  pub Gate-transition :
      is_ready target ≡ false → Keeps e (Gate e) (apply_transition action target actor_id receipt)
  Gate-transition other =
      apply_transition-Keeps e (Gate e) (λ a s g. g) (λ n s g. g) action target actor_id receipt
        λ s g good.
          Gate-status e s (row_or action (action_row action.id s.db)).id target
            (λ a found past risky.
              (g (row_or action (action_row action.id s.db)).id a found).approved
                (past_stays a.status target (allowed_row s a found good) other past) risky)
            g
    where
      allowed_row :
          (s : State) (a : Action)
          → action_row (row_or action (action_row action.id s.db)).id s.db ≡ some a
          → allowed (row_or action (action_row action.id s.db)).status target ≡ true
          → allowed a.status target ≡ true
      allowed_row s a found good =
          let found' : action_row action.id s.db ≡ some a =
            ap (λ (i : ℕ). action_row i s.db) (sym (row_or_id action s.db)) ∙ found in
          rw found' at good

  IsEntitled-status :
      (s : State) (id : ℕ) → IsEntitled id s → IsEntitled id (with_status id target s)
  IsEntitled-status s id entitled a found risky =
      let moved =
        find-update (λ (a : Action). a.id == id) (λ (a : Action). a.id == id)
          (λ (a : Action). record a { status = target }) s.db.actions (λ x. refl) in
      elim (Option-cases (action_row id s.db)) [
        | inl missing ↦ let none_there = sym (rw missing at moved) ∙ found in cc
        | inr (y, old) ↦
            let own = find_holds (λ (a : Action). a.id == id) s.db.actions y old in
            let same : record y { status = target } ≡ a =
              ground (arith, rw own at (rw old at moved), found) in
            rw (← same) (entitled y old (rw (← same) at risky))
      ]

  -- READY keeps the gate for an action that has what it takes.
  pub Gate-ready :
      Keeps e
        (λ s. Gate e s × IsEntitled action.id s)
        (apply_transition action target actor_id receipt)
  Gate-ready =
      apply_transition-Keeps e (λ s. Gate e s × IsEntitled action.id s) (λ a s g. g) (λ n s g. g)
        action target actor_id receipt
        λ s (g, entitled) good. rw (row_or_id action s.db) (
          Gate-status e s action.id target (λ a found past risky. entitled a found risky) g,
          IsEntitled-status s action.id entitled,
        )

  -- What a call returns is the row that it leaves, if there is one.
  pub returned_row :
      (s : State) (x : Action)
      → (apply_transition action target actor_id receipt e s).0 ≡ ok x
      → let s' = (apply_transition action target actor_id receipt e s).1 in
        (x.id ≡ action.id)
        × ((action_row action.id s'.db ≡ none) ⊎ (action_row action.id s'.db ≡ some x))
  returned_row s x returned =
      let value = apply_transition_value action target actor_id receipt e s x returned in
      let left =
        apply_transition_returned e
          (λ s'.
            action_row action.id s'.db
            ≡ changed (λ (a : Action). a.id == action.id)
                (λ (a : Action). record a { status = target }) (action_row action.id s.db))
          (λ a s' h. h) (λ n s' h. h) action target actor_id receipt s x returned
          (λ good. rw (row_or_id action s.db) (
            find-update (λ (a : Action). a.id == action.id) (λ (a : Action). a.id == action.id)
              (λ (a : Action). record a { status = target }) s.db.actions (λ x. refl))) in
      (
        sym (ap (λ (a : Action). a.id) value) ∙ row_or_id action s.db,
        elim (Option-cases (action_row action.id s.db)) [
          | inl missing ↦ inl (rw missing at left)
          | inr (y, old) ↦
              let own = find_holds (λ (a : Action). a.id == action.id) s.db.actions y old in
              let value' : record y { status = target } ≡ x = rw old at value in
              inr (rw (← value') (rw own at (rw old at left)))
        ],
      )
