-- ===== src/TelegramRelay/Claims.antt =====
-- Only the delivery that finds an action READY sends its message.
use doda.Base.{
  ℕ, String, Bool, true, false, not, Option, none, some, List, [], ◌∷◌, ◌≡◌, refl, arith, ◌==◌, inl,
  inr, Bool-cases,
}
use doda.Base.Table.{find, update}
use doda.Json.{Json}
use doda.Wire.{Post}
use doda.Env.{Env}
use doda.Db.{Db, State, ok}
use doda.Db.Keeps.{Keeps}
use doda.Domain.Action.{Action, ActionStatus}
use doda.ActionService.Transition.{action_row, row_or, apply_transition}
use doda.ActionService.Transition.Invariants.{
  row_or_id, apply_transition-Keeps, apply_transition_returned,
}
use doda.TelegramRelay.{is_ready}

-- The action's row, if there is one, is not READY.
abbrev not_ready : Option Action → Bool
not_ready none = true
not_ready (some a) = not (is_ready a.status)

abbrev pub IsPast : ℕ → Db → Type 0
IsPast action_id db = not_ready (action_row action_id db) ≡ true

-- Writing a status other than READY over a row makes it past, and keeps past rows past.
update_past :
    (id : ℕ) (target : ActionStatus) (rows : List Action)
    → is_ready target ≡ false
    → not_ready
        (find (λ a. a.id == id) (update (λ a. a.id == id) (λ a. record a { status = target }) rows))
      ≡ true
update_past id target [] h = refl
update_past id target (a ∷ rows) h = elim (Bool-cases (a.id == id)) [
  | inl hit ↦ rw (hit, hit, h) refl
  | inr miss ↦ rw (miss, miss) (update_past id target rows h)
]

update_still_past :
    (id id' : ℕ) (target : ActionStatus) (rows : List Action)
    → is_ready target ≡ false
    → not_ready (find (λ a. a.id == id) rows) ≡ true
    → not_ready (
        find (λ a. a.id == id) (update (λ a. a.id == id') (λ a. record a { status = target }) rows))
      ≡ true
update_still_past id id' target [] h was = refl
update_still_past id id' target (a ∷ rows) h was = elim (Bool-cases (a.id == id')) [
  | inl hit ↦ ground (arith, h, update_still_past id id' target rows h)
  | inr miss ↦ ground (arith, h, update_still_past id id' target rows h)
]

module _ (action : Action) (target : ActionStatus) (actor : String) (receipt : Option Json)
    (e : Env) where
  -- A transition posts nothing.
  pub posts-transition :
      (ps : List Post) → Keeps e (λ s. s.posts ≡ ps) (apply_transition action target actor receipt)
  posts-transition ps =
      apply_transition-Keeps e (λ s. s.posts ≡ ps) (λ a s h. h) (λ n s h. h) action target actor
        receipt (λ s h good. h)

  -- A transition to another status than READY leaves a past action past.
  pub IsPast-transition :
      (id : ℕ)
      → is_ready target ≡ false
      → Keeps e (λ s. IsPast id s.db) (apply_transition action target actor receipt)
  IsPast-transition id h =
      apply_transition-Keeps e (λ s. IsPast id s.db) (λ a s was. was) (λ n s was. was) action target
        actor receipt
        (λ s was good.
          update_still_past id (row_or action (action_row action.id s.db)).id target s.db.actions h
            was)

  -- One that returns makes the action past.
  pub IsPast-after :
      (s : State) (x : Action)
      → is_ready target ≡ false
      → (apply_transition action target actor receipt e s).0 ≡ ok x
      → IsPast action.id (apply_transition action target actor receipt e s).1.db
  IsPast-after s x h returned =
      apply_transition_returned e (λ s. IsPast action.id s.db) (λ a s was. was) (λ n s was. was)
        action target actor receipt s x returned
        (λ good. rw (row_or_id action s.db) (update_past action.id target s.db.actions h))
