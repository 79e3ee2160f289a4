-- ===== src/Gate/Consumption.antt =====
-- The gate under a proposal and under the consumption of an approval.
use doda.Base.{
  ℕ, String, true, none, some, ◌≡◌, refl, ap, sym, ◌∙◌, arith, ◌==◌, eq_iff, inl, inr, Option-cases,
}
use doda.Base.Table.Any.{any-update, any-update_found}
use doda.Base.Table.Laws.{find_holds}
use doda.Env.{Env}
use doda.Db.{State, ok}
use doda.Db.Keeps.{Keeps, bind_at}
use doda.Domain.Action.{Action, ActionStatus, Approval, ApprovalStatus}
use doda.Domain.Action.Policy.Floor.{telegram_needs_approval}
use doda.Outbox.{enqueue_outbox_message}
use doda.KillSwitch.{customer_switch_of, workspace_switch_of}
use doda.ActionService.Propose.{Proposal, action_with_key, propose_action}
use doda.ActionService.Propose.Idempotence.{
  IsOpen, draft_of, counted, propose_new, propose_old, propose_blocked,
}
use doda.ActionService.Transition.{action_row, apply_transition}
use doda.ActionService.Consume.{
  approval_row, set_approved, announce_granted, grant, consume_approval,
}
use doda.ActionService.Consume.Checks.{consume_cases, consume_granted, read}
use doda.Gate.Rows.{approves, IsGated, Gate, Gate-approvals, Gate-insert}
use doda.Gate.Transitions.{IsEntitled, Gate-ready}

module _ (e : Env) where
  draft-IsGated : (p : Proposal) (s : State) → IsGated e s.db.approvals (draft_of p e s)
  draft-IsGated p s = record {
    approved = λ past risky. cc;
    floored = λ telegram. rw telegram (telegram_needs_approval p.risk_level);
    hashed = refl;
  }

  -- Proposing keeps the gate: a new action is a draft, with the risk floor of its tool.
  pub Gate-propose : (p : Proposal) → Keeps e (Gate e) (propose_action p)
  Gate-propose p = record {
    at = λ s g. elim (Option-cases (customer_switch_of p.customer_id s.db)) [
      | inr (k, killed) ↦
          let (scope, raises) = propose_blocked p e s (inl (k, killed)) in rw raises g
      | inl customer_open ↦ elim (Option-cases (workspace_switch_of p.workspace_id s.db)) [
        | inr (k, killed) ↦
            let (scope, raises) = propose_blocked p e s (inr (k, killed)) in rw raises g
        | inl workspace_open ↦
            let opens : IsOpen p.customer_id p.workspace_id s.db = record {
              customer_open = customer_open;
              workspace_open = workspace_open;
            } in
            elim (Option-cases
              (action_with_key p.customer_id p.workspace_id p.idempotency_key s.db)) [
                | inl free ↦
                    rw (propose_new p e s opens free)
                      (Gate-insert e (counted s) (draft_of p e s) (draft-IsGated p s) g)
                | inr (a, taken) ↦ rw (propose_old p e s opens a taken) g
              ]
      ]
    ];
  }

  approves_stays :
      (id : ℕ) (h by : String) (p : Approval)
      → approves id h p ≡ true
      → approves id h (record p { status = ApprovalStatus.approved; approver_id = some by }) ≡ true
  approves_stays id h by p was = ground (arith, was)

  module _ (action : Action) (approval : Approval) (approver_id nonce : String) (s : State)
      (own_approval : approval_row approval.id s.db ≡ some approval)
      (own_action : action_row approval.action_id s.db ≡ some action) (g : Gate e s) where
    abbrev marked : State
    marked = (set_approved approval approver_id e (read action approval approver_id nonce e s)).1

    marked-Gate : Gate e marked
    unfolding set_approved
    marked-Gate =
        Gate-approvals e s _
          (λ id h.
            any-update (approves id h) (λ (p : Approval). p.id == approval.id)
              (λ (p : Approval). record p {
                status = ApprovalStatus.approved;
                approver_id = some approver_id;
              })
              s.db.approvals (λ p. approves_stays id h approver_id p))
          g

    marked-IsEntitled : approval.payload_hash ≡ action.payload_hash → IsEntitled action.id marked
    unfolding set_approved
    marked-IsEntitled same a found risky =
        let named : action.id ≡ approval.action_id = ground (
          arith,
          find_holds (λ (x : Action). x.id == approval.action_id) s.db.actions action own_action,
        ) in
        let found' : action_row approval.action_id s.db ≡ some a =
          ap (λ (i : ℕ). action_row i s.db) (sym named) ∙ found in
        let is_a : action ≡ a = ground (arith, own_action, found') in
        rw (← is_a) (
          any-update_found (approves action.id action.payload_hash)
            (λ (p : Approval). p.id == approval.id)
            (λ (p : Approval). record p {
              status = ApprovalStatus.approved;
              approver_id = some approver_id;
            })
            s.db.approvals approval own_approval
            (ground (arith, named, (eq_iff approval.payload_hash action.payload_hash).1 same)))

    -- A consumption that returns keeps the gate: the approval that it grants is the one that the
    -- action wants.
    pub Gate-consume :
        (x : Action)
        → (consume_approval action approval approver_id nonce e s).0 ≡ ok x
        → Gate e (consume_approval action approval approver_id nonce e s).1
    unfolding grant announce_granted enqueue_outbox_message
    Gate-consume x returned = elim (consume_cases action approval approver_id nonce e s) [
      | inl (y, raised) ↦ cc
      | inr fits ↦
          let kept =
            (Gate-ready e action ActionStatus.ready approver_id none).at marked
              (marked-Gate, marked-IsEntitled fits.same_payload) in
          rw (consume_granted action approval approver_id nonce e s fits) (
            bind_at (Gate e) (apply_transition action ActionStatus.ready approver_id none)
              (announce_granted approval) e marked kept.0 (λ a returned. kept.0))
    ]
