-- ===== src/ActionService/Consume/Once.antt =====
-- What `consume_approval` does on each branch, for objects that may be stale, and that one approval
-- lets one action through once.
use doda.Base.{
  ℕ, String, true, false, none, some, [], ◌∷◌, ◌++◌, ◌≡◌, ◌⊎◌, refl, ap, sym, ◌∙◌, arith, ◌==◌,
  eq_iff, ◌<◌, inl, inr, Bool-cases,
}
use doda.Base.Table.{insert, update}
use doda.Base.Table.Laws.{find_holds}
use doda.Env.{Env}
use doda.Json.{object, field, text, end}
use doda.Db.{State, ok, err, transaction, Error, approval_expired, invalid_action_transition}
use doda.Domain.Action.{Action, ActionStatus, Approval, ApprovalStatus}
use doda.Domain.Action.Machine.{allowed}
use doda.Domain.Outbox.{OutboxMessage}
use doda.Outbox.{enqueue_outbox_message_lem, enqueued, announced}
use doda.ActionService.Transition.{action_row}
use doda.ActionService.Transition.Effect.{
  apply_transition_ok, apply_transition_err, transitioned, row-transitioned, approvals-transitioned,
  outbox-transitioned,
}
use doda.ActionService.Consume.{is_pending, consume_approval, approved_message, refuse, grant}
use doda.ActionService.Consume.Checks.{
  IsGrantable, is_late, with_approval_status, Raises, transaction-Raises, read, consume_granted,
  consume_cases,
}

-- The message that tells the relay of an action that was approved.
pub record IsAnnouncement (e : Env) (row : Action) (approval : Approval) (m : OutboxMessage)
    : Type 0 where
  pub of_customer : m.customer_id ≡ row.customer_id
  pub of_type : m.aggregate_type ≡ "action"
  pub of_action : m.aggregate_id ≡ row.id
  pub event : m.event_type ≡ "action.ready.v1"
  pub names :
      m.payload
      ≡ object (
          field "action_id" (text (e.str_uuid row.id)) (
            field "tool_name"
              (text row.tool_name)
              (field "approval_id" (text (e.str_uuid approval.id)) end)))
  pub unpublished : (m.attempts ≡ 0) × (m.published_at ≡ none)

module _ (action : Action) (approval : Approval) (approver_id nonce : String) (e : Env)
    (s : State) where
  abbrev begun : State
  begun = read action approval approver_id nonce e s

  -- The state once the approval is marked, and the one that the transition leaves.
  abbrev marked : State
  marked = record begun {
    db = record s.db {
      approvals =
          update (λ p. p.id == approval.id)
            (λ p. record p { status = ApprovalStatus.approved; approver_id = some approver_id })
            s.db.approvals;
    };
  }

  module _ (row : Action) (found : action_row action.id s.db ≡ some row) where
    abbrev granted_state : State
    granted_state = transitioned row ActionStatus.ready approver_id none e marked

    abbrev ready_row : Action
    ready_row = record row { status = ActionStatus.ready }

    -- The message that a granted approval queues.
    abbrev granted_message : OutboxMessage
    granted_message = announced (approved_message e ready_row approval) e granted_state

    announces : IsAnnouncement e row approval granted_message
    announces = record {
      of_customer = refl;
      of_type = refl;
      of_action = refl;
      event = refl;
      names = refl;
      unpublished = (refl, refl);
    }

    grant_ok :
        allowed row.status ActionStatus.ready ≡ true
        → grant action approval approver_id e begun
          ≡ (ok ready_row, enqueued (approved_message e ready_row approval) e granted_state)
    unfolding grant
    grant_ok good =
        rw
          (apply_transition_ok action row ActionStatus.ready approver_id none e marked found refl
            good)
          (rw enqueue_outbox_message_lem)

    grant_err :
        allowed row.status ActionStatus.ready ≡ false
        → Raises (grant action approval approver_id e begun)
    unfolding grant
    grant_err bad =
        rw
          (apply_transition_err action row ActionStatus.ready approver_id none e marked found refl
            bad)
          (invalid_action_transition row.status ActionStatus.ready, refl)

    -- An approval that passes its four checks, for a row that may become READY, makes the row
    -- READY, marks the approval with its approver, and queues one message behind those that are
    -- queued: unpublished, an "action.ready.v1" of the action and its customer, whose payload names
    -- the action, its tool and the approval.
    pub consume_grants :
        IsGrantable action approval nonce (e.clock s.reads)
        → allowed row.status ActionStatus.ready ≡ true
        → let (r, s') = transaction (consume_approval action approval approver_id nonce) e s in
          (r ≡ ok ready_row)
          × (action_row row.id s'.db ≡ some ready_row)
          × ((m : OutboxMessage) × (s'.db.outbox ≡ s.db.outbox ++ m ∷ [])
              × IsAnnouncement e row approval m)
          × (s'.db.approvals
              ≡ update
                  (λ p. p.id == approval.id)
                  (λ p. record p {
                    status = ApprovalStatus.approved;
                    approver_id = some approver_id;
                  })
                  s.db.approvals)
    unfolding transaction
    consume_grants g good =
        let same : action.id ≡ row.id =
          ground (arith, find_holds (λ (a : Action). a.id == action.id) s.db.actions row found) in
        let found' : action_row row.id s.db ≡ some row =
          ap (λ (id : ℕ). action_row id s.db) (sym same) ∙ found in
        rw (consume_granted action approval approver_id nonce e s g) (
          rw (grant_ok good) (
            refl,
            row-transitioned row ActionStatus.ready approver_id none e marked found',
            (
              granted_message,
              ap (insert granted_message)
                  (outbox-transitioned row ActionStatus.ready approver_id none e marked),
              announces,
            ),
            approvals-transitioned row ActionStatus.ready approver_id none e marked,
          ))

    -- The transaction of a consumption returns only if the approval passes the four checks and the
    -- action's row, as locked, may become READY; otherwise it raises and the database is unchanged,
    -- whatever the caller's copies of the action and the approval say.
    pub consume_otherwise_unchanged :
        let (r, s') = transaction (consume_approval action approval approver_id nonce) e s in
        (((x : Error) × (r ≡ err x)) × (s'.db ≡ s.db))
        ⊎ (IsGrantable action approval nonce (e.clock s.reads)
            × (allowed row.status ActionStatus.ready ≡ true))
    consume_otherwise_unchanged = elim (consume_cases action approval approver_id nonce e s) [
      | inl raised ↦
          inl (transaction-Raises (consume_approval action approval approver_id nonce) e s raised)
      | inr g ↦ elim (Bool-cases (allowed row.status ActionStatus.ready)) [
        | inl good ↦ inr (g, good)
        | inr bad ↦ inl (
            transaction-Raises (consume_approval action approval approver_id nonce) e s
              (rw (consume_granted action approval approver_id nonce e s g) (grant_err bad)))
      ]
    ]

    to_expired :
        row.status ≡ ActionStatus.awaiting_approval → allowed row.status ActionStatus.expired ≡ true
    unfolding allowed
    to_expired h = rw h

    abbrev denied : State
    denied = with_approval_status approval.id ApprovalStatus.expired begun

    late_run :
        is_pending approval.status ≡ true
        → approval.nonce ≡ nonce
        → approval.expires_at < e.clock s.reads
        → row.status ≡ ActionStatus.awaiting_approval
        → consume_approval action approval approver_id nonce e s
          ≡ (err approval_expired, transitioned row ActionStatus.expired approver_id none e denied)
    unfolding consume_approval refuse
    late_run pending same_nonce late awaiting =
        rw
          (
            pending,
            (eq_iff approval.nonce nonce).1 same_nonce,
            is_late approval.expires_at (e.clock s.reads) late,
          )
          (rw (
            apply_transition_ok action row ActionStatus.expired approver_id none e denied found refl
              (to_expired awaiting)))

    -- Presenting an approval too late, with its nonce, for an action that awaits it: the block
    -- marks the approval EXPIRED and then raises, so the transaction around it takes the mark back
    -- and leaves the database as it was, the approval still pending.
    pub expired_leaves_no_trace :
        is_pending approval.status ≡ true
        → approval.nonce ≡ nonce
        → approval.expires_at < e.clock s.reads
        → row.status ≡ ActionStatus.awaiting_approval
        → let inside = consume_approval action approval approver_id nonce e s in
          let outside = transaction (consume_approval action approval approver_id nonce) e s in
          (inside.1.db.approvals
            ≡ (with_approval_status approval.id ApprovalStatus.expired s).db.approvals)
          × (outside.0 ≡ err approval_expired)
          × (outside.1.db ≡ s.db)
    unfolding transaction
    expired_leaves_no_trace pending same_nonce late awaiting =
        rw (late_run pending same_nonce late awaiting)
          (approvals-transitioned row ActionStatus.expired approver_id none e denied, refl, refl)

    granted_if_ok :
        (x : Action)
        → (transaction (consume_approval action approval approver_id nonce) e s).0 ≡ ok x
        → action_row action.id
            (transaction (consume_approval action approval approver_id nonce) e s).1.db
          ≡ some ready_row
    granted_if_ok x returned = elim consume_otherwise_unchanged [
      | inl ((y, raised), same) ↦ cc
      | inr (g, good) ↦
          let row_id : action.id ≡ row.id =
            ground (arith, find_holds (λ (a : Action). a.id == action.id) s.db.actions row found) in
          ap
            (λ (id : ℕ).
              action_row id
                (transaction (consume_approval action approval approver_id nonce) e s).1.db)
            row_id
          ∙ (consume_grants g good).1
    ]

ready_stays : allowed ActionStatus.ready ActionStatus.ready ≡ false
unfolding allowed
ready_stays = refl

-- Two transactions that present approvals for one action, one after the other: once the first has
-- returned, the second raises and changes nothing, whatever approval and nonce it presents, and
-- however stale its copies of the action and the approval are.
pub approval_used_once :
    (first second : Action) (p q : Approval) (by_first by_second n m : String) (e : Env) (s : State)
    (row x : Action)
    → action_row first.id s.db ≡ some row
    → second.id ≡ first.id
    → (transaction (consume_approval first p by_first n) e s).0 ≡ ok x
    → let s' = (transaction (consume_approval first p by_first n) e s).1 in
      let (r, s'') = transaction (consume_approval second q by_second m) e s' in
      ((y : Error) × (r ≡ err y)) × (s''.db ≡ s'.db)
approval_used_once first second p q by_first by_second n m e s row x found same returned =
    let s' = (transaction (consume_approval first p by_first n) e s).1 in
    let now : action_row second.id s'.db ≡ some (record row { status = ActionStatus.ready }) =
      ap (λ (id : ℕ). action_row id s'.db) same
      ∙ granted_if_ok first p by_first n e s row found x returned in
    elim (consume_otherwise_unchanged second q by_second m e s'
      (record row { status = ActionStatus.ready }) now) [
        | inl refused ↦ refused
        | inr (g, good) ↦ cc (ready_stays)
      ]
