-- ===== src/Tests/Actions.antt =====
-- Examples: actions and approvals.
use doda.Base.{String, true, false, none, some, [], ◌∷◌, ◌≡◌, ◌⊎◌, ◌≤◌, refl, arith}
use doda.Json.{text}
use doda.Db.{State, Error, ok, err, transaction, kill_switch_engaged, approval_expired}
use doda.Domain.Action.{Action, ActionStatus, RiskLevel, ApprovalStatus}
use doda.Domain.Action.Machine.{allowed, transition}
use doda.Domain.Action.Machine.Table.{Trail}
use doda.Domain.Action.Policy.{risk_order, enforce_minimum_risk_level, tool_minimum_risk_level}
use doda.Domain.Action.Policy.Floor.{enforce_least}
use doda.Domain.Outbox.{OutboxMessage}
use doda.ActionService.Propose.{Proposal, propose_action, action_with_key}
use doda.ActionService.Propose.Idempotence.{
  IsOpen, draft_of, propose_creates_once, replay_returns_first, engaged_blocks_proposals,
}
use doda.ActionService.Transition.{action_row, apply_transition, request_cancellation}
use doda.ActionService.Transition.Effect.{apply_transition_lem, transition_result}
use doda.ActionService.Transition.Cancel.{IsMove, IsMoved, IsUnmoved, cancellation_moves}
use doda.ActionService.Submit.{submit_action_for_execution}
use doda.ActionService.Submit.Routing.{submit_low_risk, submit_high_risk, asked}
use doda.ActionService.Consume.{consume_approval}
use doda.ActionService.Consume.Checks.{IsGrantable}
use doda.ActionService.Consume.Once.{
  consume_grants, consume_otherwise_unchanged, expired_leaves_no_trace, approval_used_once,
  IsAnnouncement,
}
use doda.Audit.{record_audit_event}
use doda.KillSwitch.{assert_not_killed, engage_workspace_kill_switch}
use doda.Tests.Data.{demo, empty, at_start, draft, waiting, approval, with_action, with_approval}

grantable : IsGrantable waiting approval "nonce" 100
grantable = record { pending = refl; same_nonce = refl; in_time = omega arith; same_payload = refl }

consume_grants_example :
    let s = with_approval approval in
    let (r, s') = transaction (consume_approval waiting approval "user:7" "nonce") demo s in
    let ready = record waiting { status = ActionStatus.ready } in
    (r ≡ ok ready)
    × (action_row 5 s'.db ≡ some ready)
    × ((m : OutboxMessage) × (s'.db.outbox ≡ m ∷ []) × IsAnnouncement demo waiting approval m)
    × (s'.db.approvals
        ≡ record approval { status = ApprovalStatus.approved; approver_id = some "user:7" } ∷ [])
unfolding allowed
consume_grants_example =
    consume_grants waiting approval "user:7" "nonce" demo (with_approval approval) waiting refl
      grantable refl

consume_otherwise_unchanged_example :
    let s = with_approval approval in
    let (r, s') = transaction (consume_approval waiting approval "user:7" "guess") demo s in
    (((x : Error) × (r ≡ err x)) × (s'.db ≡ s.db))
    ⊎ (IsGrantable waiting approval "guess" 100
        × (allowed waiting.status ActionStatus.ready ≡ true))
consume_otherwise_unchanged_example =
    consume_otherwise_unchanged waiting approval "user:7" "guess" demo (with_approval approval)
      waiting refl

expired_leaves_no_trace_example :
    let late = record approval { expires_at = 50 } in
    let s = with_approval late in
    let inside = consume_approval waiting late "user:7" "nonce" demo s in
    let outside = transaction (consume_approval waiting late "user:7" "nonce") demo s in
    (inside.1.db.approvals ≡ record late { status = ApprovalStatus.expired } ∷ [])
    × (outside.0 ≡ err approval_expired)
    × (outside.1.db ≡ s.db)
expired_leaves_no_trace_example =
    let late = record approval { expires_at = 50 } in
    expired_leaves_no_trace waiting late "user:7" "nonce" demo (with_approval late) waiting refl
      refl refl (omega arith) refl

approval_used_once_example :
    let s = with_approval approval in
    let s' = (transaction (consume_approval waiting approval "user:7" "nonce") demo s).1 in
    let (r, s'') = transaction (consume_approval waiting approval "user:8" "nonce") demo s' in
    ((y : Error) × (r ≡ err y)) × (s''.db ≡ s'.db)
approval_used_once_example =
    approval_used_once waiting waiting approval approval "user:7" "user:8" "nonce" "nonce" demo
      (with_approval approval) waiting (record waiting { status = ActionStatus.ready }) refl refl
      consume_grants_example.0

submit_low_risk_example :
    let a = draft RiskLevel.r1 in
    let (r, s') = submit_action_for_execution a "user:id" demo (with_action a) in
    (r ≡ ok (record a { status = ActionStatus.ready }, none))
    × (action_row 5 s'.db ≡ some (record a { status = ActionStatus.ready }))
    × ((m : OutboxMessage) × (s'.db.outbox ≡ m ∷ [])
        × (m.aggregate_id ≡ 5)
        × (m.event_type ≡ "action.ready.v1"))
    × (s'.db.approvals ≡ [])
submit_low_risk_example =
    let a = draft RiskLevel.r1 in submit_low_risk a "user:id" demo (with_action a) refl refl refl

submit_high_risk_example :
    let a = draft RiskLevel.r3 in
    let s = with_action a in
    let (r, s') = submit_action_for_execution a "user:id" demo s in
    (r
      ≡ ok (
        record a { status = ActionStatus.awaiting_approval },
        some (asked a "user:id" demo s refl refl),
      ))
    × (action_row 5 s'.db ≡ some (record a { status = ActionStatus.awaiting_approval }))
    × (s'.db.outbox ≡ [])
    × (s'.db.approvals ≡ asked a "user:id" demo s refl refl ∷ [])
submit_high_risk_example =
    let a = draft RiskLevel.r3 in submit_high_risk a "user:id" demo (with_action a) refl refl refl

abbrev proposal : Proposal
proposal = record {
  customer_id = 1;
  workspace_id = 2;
  trace_id = 9;
  actor_id = "user:id";
  tool_name = "mail.send";
  risk_level = RiskLevel.r3;
  payload = text "hello";
  idempotency_key = "key";
  task_id = none;
}

abbrev fresh : State
fresh = at_start empty

fresh-IsOpen : IsOpen 1 2 empty
fresh-IsOpen = record { customer_open = refl; workspace_open = refl }

propose_creates_once_example :
    let (r, s') = propose_action proposal demo fresh in
    (((r ≡ ok (draft_of proposal demo fresh, true))
        × (action_with_key 1 2 "key" empty ≡ none)
        × (s'.db.actions ≡ draft_of proposal demo fresh ∷ []))
      ⊎ ((a : Action) × (r ≡ ok (a, false))
          × (action_with_key 1 2 "key" empty ≡ some a)
          × (s'.db ≡ empty)))
propose_creates_once_example = propose_creates_once proposal demo fresh fresh-IsOpen

replay_returns_first_example :
    let again = record proposal { actor_id = "user:other"; payload = text "bye" } in
    let s' = (propose_action proposal demo fresh).1 in
    let (r, s'') = propose_action again demo s' in
    (r ≡ ok (draft_of proposal demo fresh, false)) × (s''.db ≡ s'.db)
unfolding propose_action assert_not_killed record_audit_event
replay_returns_first_example =
    let again = record proposal { actor_id = "user:other"; payload = text "bye" } in
    replay_returns_first proposal again demo fresh (draft_of proposal demo fresh) true fresh-IsOpen
      refl refl refl refl

engaged_blocks_proposals_example :
    let s' = (engage_workspace_kill_switch (λ db. db) 2 1 "user:id" "leak" demo fresh).1 in
    (scope : String) × (propose_action proposal demo s' ≡ (err (kill_switch_engaged scope), s'))
engaged_blocks_proposals_example =
    engaged_blocks_proposals (λ db. db) proposal 1 "user:id" "leak" demo fresh

abbrev blocked : State
blocked = at_start (record empty {
  workspace_switches =
      record {
        workspace_id = 2;
        customer_id = 1;
        engaged_at = 50;
        engaged_by = "user:id";
        reason = "leak";
      }
      ∷ [];
})

apply_transition_lem_example :
    let s = with_action waiting in
    apply_transition (draft RiskLevel.r3) ActionStatus.ready "user:7" none demo s
    ≡ transition_result waiting ActionStatus.ready "user:7" none demo s
apply_transition_lem_example =
    apply_transition_lem (draft RiskLevel.r3) waiting ActionStatus.ready "user:7" none demo
      (with_action waiting) refl

abbrev running : Action
running = record (draft RiskLevel.r1) { status = ActionStatus.running }

cancellation_moves_example :
    let s = with_action running in
    let out = request_cancellation running "user:7" demo s in
    ((after : ActionStatus) × IsMove ActionStatus.running ActionStatus.running after
      × IsMoved running after s out)
    ⊎ ((¬ ((after : ActionStatus) × IsMove ActionStatus.running ActionStatus.running after))
        × IsUnmoved s out)
cancellation_moves_example =
    cancellation_moves running running "user:7" demo (with_action running) refl

to_running : Trail ActionStatus.draft ActionStatus.running
unfolding transition
to_running =
    Trail.next ActionStatus.running
      (Trail.next ActionStatus.ready (Trail.next ActionStatus.validating Trail.here refl) refl) refl

enforce_least_example :
    let level = enforce_minimum_risk_level "mail.send" RiskLevel.r1 in
    (risk_order RiskLevel.r1 ≤ risk_order level)
    × (((tool_minimum_risk_level "mail.send" ≡ none) × (level ≡ RiskLevel.r1))
        ⊎ ((minimum : RiskLevel) × (tool_minimum_risk_level "mail.send" ≡ some minimum)
            × (risk_order minimum ≤ risk_order level)
            × ((level ≡ RiskLevel.r1) ⊎ (level ≡ minimum))))
enforce_least_example = enforce_least "mail.send" RiskLevel.r1
