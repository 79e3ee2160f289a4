-- ===== src/Domain/Action/Machine/Table.antt =====
-- The paths of the table of state_machine.py: what a run of accepted transitions can reach.
use doda.Base.{◌≡◌, refl, sym, ◌∙◌, false, true, Bool, ◌⊎◌, inl, inr, arith}
use doda.Domain.Action.{ActionStatus}
use doda.Domain.Action.Machine.{is_terminal, transition, Outcome}

-- A sequence of accepted calls of `transition`.
pub data Trail (a : ActionStatus) : ActionStatus → Type 0 where
  here : Trail a a
  next :
      {b : ActionStatus} (c : ActionStatus)
      → Trail a b
      → transition b c ≡ Outcome.moved c
      → Trail a c

-- The statuses from which no call of `transition` is accepted.
abbrev pub is_stuck : ActionStatus → Bool
is_stuck ActionStatus.succeeded = true
is_stuck ActionStatus.compensated = true
is_stuck ActionStatus.denied = true
is_stuck ActionStatus.rejected = true
is_stuck ActionStatus.expired = true
is_stuck ActionStatus.cancelled = true
is_stuck _ = false

-- The statuses that an action has before it is ready for the first time.
abbrev pub is_early : ActionStatus → Bool
is_early ActionStatus.draft = true
is_early ActionStatus.validating = true
is_early ActionStatus.awaiting_approval = true
is_early ActionStatus.denied = true
is_early ActionStatus.rejected = true
is_early ActionStatus.expired = true
is_early ActionStatus.cancelled = true
is_early _ = false

step_of_stuck : (b c : ActionStatus) → is_stuck b ≡ true → transition b c ≡ Outcome.moved c → b ≡ c
unfolding transition
step_of_stuck b c h m = ground arith

-- An action that has succeeded, or was compensated, denied, rejected, expired or cancelled, stays
-- where it is under every sequence of accepted transitions.
pub stuck_stays : {a b : ActionStatus} → is_stuck a ≡ true → Trail a b → b ≡ a
stuck_stays h here = refl
stuck_stays h (next {b} c p m) = let e = stuck_stays h p in sym (step_of_stuck b c (rw e h) m) ∙ e

-- A path goes through a status.
abbrev pub Visits : ActionStatus → {a b : ActionStatus} → Trail a b → Type 0
Visits v {a} here = a ≡ v
Visits v (next c p m) = (c ≡ v) ⊎ Visits v p

step_of_early :
    (b c : ActionStatus)
    → is_early b ≡ true
    → transition b c ≡ Outcome.moved c
    → (c ≡ ActionStatus.ready) ⊎ (is_early c ≡ true)
unfolding transition
step_of_early b c h m = ground arith

early_or_ready :
    {a b : ActionStatus} (p : Trail a b)
    → is_early a ≡ true
    → (is_early b ≡ true) ⊎ Visits ActionStatus.ready p
early_or_ready here h = inl h
early_or_ready (next {b} c p m) h = elim (early_or_ready p h) [
  | inr v ↦ inr (inr v)
  | inl e ↦ elim (step_of_early b c e m) [ inl r ↦ inr (inl r) | inr k ↦ inl k ]
]

-- From DRAFT, every sequence of accepted transitions that ends in RUNNING, SUCCEEDED, FAILED,
-- RETRYING, COMPENSATING or COMPENSATED has gone through READY.
pub draft_goes_through_ready :
    {b : ActionStatus} (p : Trail ActionStatus.draft b)
    → is_early b ≡ false
    → Visits ActionStatus.ready p
draft_goes_through_ready p h = elim (early_or_ready p refl) [ inl e ↦ cc | inr v ↦ v ]

-- A status from which no transition at all is accepted is terminal, and the one terminal status
-- that has a way out is FAILED, to RETRYING alone.
pub terminal_way_out :
    (a b : ActionStatus)
    → is_terminal a ≡ true
    → transition a b ≡ Outcome.moved b
    → (a ≡ ActionStatus.failed) × (b ≡ ActionStatus.retrying)
unfolding transition is_terminal
terminal_way_out a b h m = ground arith

-- Whatever is not terminal has a way on.
pub not_terminal_moves :
    (a : ActionStatus)
    → is_terminal a ≡ false
    → (b : ActionStatus) × (transition a b ≡ Outcome.moved b)
unfolding transition is_terminal
not_terminal_moves ActionStatus.draft h = (ActionStatus.validating, refl)
not_terminal_moves ActionStatus.validating h = (ActionStatus.ready, refl)
not_terminal_moves ActionStatus.awaiting_approval h = (ActionStatus.ready, refl)
not_terminal_moves ActionStatus.ready h = (ActionStatus.running, refl)
not_terminal_moves ActionStatus.running h = (ActionStatus.succeeded, refl)
not_terminal_moves ActionStatus.retrying h = (ActionStatus.ready, refl)
not_terminal_moves ActionStatus.compensating h = (ActionStatus.compensated, refl)
not_terminal_moves _ h = cc
