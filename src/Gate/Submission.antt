-- ===== src/Gate/Submission.antt =====
-- The gate under the submission of an action.
use doda.Base.{subst, ℕ, String, none, some, ◌≡◌, ◌⊎◌, refl, sym, ◌∙◌, arith, inl, inr, Bool-cases}
use doda.Base.Table.{insert}
use doda.Base.Table.Any.{any-append_left}
use doda.Env.{Env}
use doda.Db.{State, pure}
use doda.Db.Keeps.{Keeps, bind_at}
use doda.Domain.Action.{Action, ActionStatus, auto_approved}
use doda.Outbox.{enqueue_outbox_message}
use doda.ActionService.Transition.{action_row, apply_transition}
use doda.ActionService.Submit.{
  announce_ready, route, validate_action, is_awaiting, request_approval, ask_approval,
  submit_action_for_execution,
}
use doda.Gate.Rows.{approves, Gate, Gate-approvals}
use doda.Gate.Transitions.{IsEntitled, Gate-transition, Gate-ready, returned_row}

module _ (e : Env) where
  Gate-announce : (ready : Action) → Keeps e (Gate e) (announce_ready ready)
  unfolding announce_ready enqueue_outbox_message
  Gate-announce ready = record { at = λ s g. g }

  Gate-route :
      (actor_id : String) (x : Action) (s : State)
      → Gate e s
      → (action_row x.id s.db ≡ none) ⊎ (action_row x.id s.db ≡ some x)
      → Gate e (route actor_id x e s).1
  unfolding route
  Gate-route actor_id x s g row = elim (Bool-cases (auto_approved x.risk_level)) [
    | inr risky ↦
        rw risky ((Gate-transition e x ActionStatus.awaiting_approval actor_id none refl).at s g)
    | inl low ↦
        let entitled : IsEntitled x.id s = λ a found risky. elim row [
          | inl missing ↦ let no_row = sym missing ∙ found in cc
          | inr own ↦
              let same : x ≡ a = ground (arith, own, found) in
              let risky' = rw (← same) at risky in absurd (ground (arith, low, risky'))
        ] in
        rw low (
          bind_at (Gate e) (apply_transition x ActionStatus.ready actor_id none) announce_ready e s
            ((Gate-ready e x ActionStatus.ready actor_id none).at s (g, entitled)).0
            (λ a returned.
              (Gate-announce a).at _
                ((Gate-ready e x ActionStatus.ready actor_id none).at s (g, entitled)).0))
  ]

  Gate-validate :
      (action : Action) (actor_id : String) → Keeps e (Gate e) (validate_action action actor_id)
  unfolding validate_action
  Gate-validate action actor_id = record {
    at = λ s g.
        let kept = (Gate-transition e action ActionStatus.validating actor_id none refl).at s g in
        bind_at (Gate e) (apply_transition action ActionStatus.validating actor_id none)
          (route actor_id) e s kept
          (λ x returned.
            let (same, row) =
              returned_row e action ActionStatus.validating actor_id none s x returned in
            let s' = (apply_transition action ActionStatus.validating actor_id none e s).1 in
            Gate-route actor_id x s' kept (
              subst (λ (i : ℕ). (action_row i s'.db ≡ none) ⊎ (action_row i s'.db ≡ some x))
                (sym same) row));
  }

  Gate-request : (action : Action) → Keeps e (Gate e) (request_approval action)
  unfolding request_approval
  Gate-request action = record {
    at = λ s g. elim (Bool-cases (is_awaiting action.status)) [
      | inr other ↦ rw other g
      | inl waits ↦ rw waits (
          Gate-approvals e s (insert _ s.db.approvals)
            (λ id h. any-append_left (approves id h) s.db.approvals _) g)
    ];
  }

  Gate-ask : (x : Action) → Keeps e (Gate e) (ask_approval x)
  unfolding ask_approval
  Gate-ask x = record {
    at = λ s g. elim (Bool-cases (is_awaiting x.status)) [
      | inr other ↦ rw other g
      | inl waits ↦ rw waits (
          bind_at (Gate e) (request_approval x) (λ approval. pure (x, some approval)) e s
            ((Gate-request x).at s g) (λ a returned. (Gate-request x).at s g))
    ];
  }

  -- Submitting keeps the gate: an action of high risk is not made READY.
  pub Gate-submit :
      (action : Action) (actor_id : String)
      → Keeps e (Gate e) (submit_action_for_execution action actor_id)
  unfolding submit_action_for_execution
  Gate-submit action actor_id = record {
    at = λ s g.
        let kept = (Gate-validate action actor_id).at s g in
        bind_at (Gate e) (validate_action action actor_id) ask_approval e s kept
          (λ x returned. (Gate-ask x).at _ kept);
  }
