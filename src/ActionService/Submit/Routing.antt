-- ===== src/ActionService/Submit/Routing.antt =====
-- Where `validate_action` and `submit_action_for_execution` take a new action, by its risk.
use doda.Base.{suc, ◌+◌, String, true, false, none, some, [], ◌∷◌, ◌++◌, ◌≡◌, ◌∙◌, ap, refl}
use doda.Base.Table.{insert}
use doda.Env.{Env}
use doda.Db.{State, ok}
use doda.Domain.Action.{
  Action, ActionStatus, auto_approved, Approval, ApprovalStatus, default_approval_ttl,
}
use doda.Domain.Action.Machine.{allowed}
use doda.Domain.Outbox.{OutboxMessage}
use doda.Outbox.{enqueue_outbox_message_lem, enqueued, announced}
use doda.ActionService.Transition.{action_row}
use doda.ActionService.Transition.Effect.{
  apply_transition_ok, transitioned, row-transitioned, approvals-transitioned, outbox-transitioned,
}
use doda.ActionService.Submit.{
  validate_action, request_approval, submit_action_for_execution, ready_message,
}

module _ (a : Action) (actor_id : String) (e : Env) (s : State) where
  abbrev as_validating : Action
  as_validating = record a { status = ActionStatus.validating }

  abbrev validated : State
  validated = transitioned a ActionStatus.validating actor_id none e s

  -- The state that the automatic path leaves, before the message is queued.
  abbrev made_ready : State
  made_ready = transitioned as_validating ActionStatus.ready actor_id none e validated

  abbrev made_waiting : State
  made_waiting = transitioned as_validating ActionStatus.awaiting_approval actor_id none e validated

  module _ (found : action_row a.id s.db ≡ some a) (draft : a.status ≡ ActionStatus.draft) where
    from_draft : allowed a.status ActionStatus.validating ≡ true
    unfolding allowed
    from_draft = rw draft

    to_ready : allowed ActionStatus.validating ActionStatus.ready ≡ true
    unfolding allowed
    to_ready = refl

    to_awaiting : allowed ActionStatus.validating ActionStatus.awaiting_approval ≡ true
    unfolding allowed
    to_awaiting = refl

    validating_found : action_row a.id validated.db ≡ some as_validating
    validating_found = row-transitioned a ActionStatus.validating actor_id none e s found

    validate_auto :
        auto_approved a.risk_level ≡ true
        → validate_action a actor_id e s ≡ (
          ok (record a { status = ActionStatus.ready }),
          enqueued (ready_message e (record a { status = ActionStatus.ready })) e made_ready,
        )
    unfolding validate_action
    validate_auto auto =
        rw (apply_transition_ok a a ActionStatus.validating actor_id none e s found refl from_draft)
          (rw auto (
            rw
              (apply_transition_ok as_validating as_validating ActionStatus.ready actor_id none e
                validated validating_found refl to_ready)
              (rw enqueue_outbox_message_lem)))

    validate_waiting :
        auto_approved a.risk_level ≡ false
        → validate_action a actor_id e s
          ≡ (ok (record a { status = ActionStatus.awaiting_approval }), made_waiting)
    unfolding validate_action
    validate_waiting human =
        rw (apply_transition_ok a a ActionStatus.validating actor_id none e s found refl from_draft)
          (rw human (
            apply_transition_ok as_validating as_validating ActionStatus.awaiting_approval actor_id
              none e validated validating_found refl to_awaiting))

    -- The approval that a submission of a risky action creates.
    abbrev pub asked : Approval
    asked = record {
      id = e.uuid4 made_waiting.ids;
      created_at = e.clock (suc made_waiting.reads);
      customer_id = a.customer_id;
      action_id = a.id;
      payload_hash = a.payload_hash;
      approver_id = none;
      nonce = e.token_urlsafe made_waiting.tokens;
      status = ApprovalStatus.pending;
      expires_at = e.clock made_waiting.reads + default_approval_ttl;
    }

    -- Submitting a DRAFT action of risk R0 to R2 makes its row READY, queues one message for it
    -- with the event type `action.ready.v1`, and creates no approval.
    pub submit_low_risk :
        auto_approved a.risk_level ≡ true
        → let (r, s') = submit_action_for_execution a actor_id e s in
          (r ≡ ok (record a { status = ActionStatus.ready }, none))
          × (action_row a.id s'.db ≡ some (record a { status = ActionStatus.ready }))
          × ((m : OutboxMessage) × (s'.db.outbox ≡ s.db.outbox ++ m ∷ [])
              × (m.aggregate_id ≡ a.id)
              × (m.event_type ≡ "action.ready.v1"))
          × (s'.db.approvals ≡ s.db.approvals)
    unfolding submit_action_for_execution
    submit_low_risk auto =
        let m : OutboxMessage =
          announced (ready_message e (record a { status = ActionStatus.ready })) e made_ready in
        rw (validate_auto auto) (
          refl,
          row-transitioned as_validating ActionStatus.ready actor_id none e validated
              validating_found,
          (
            m,
            ap (insert m) (
                outbox-transitioned as_validating ActionStatus.ready actor_id none e validated
                ∙ outbox-transitioned a ActionStatus.validating actor_id none e s),
            refl,
            refl,
          ),
          approvals-transitioned as_validating ActionStatus.ready actor_id none e validated
              ∙ approvals-transitioned a ActionStatus.validating actor_id none e s,
        )

    -- Submitting a DRAFT action of risk R3 or more makes its row AWAITING_APPROVAL, queues nothing,
    -- and creates one approval: pending, for this action and the hash of its payload, with a fresh
    -- nonce, and good for ten minutes.
    pub submit_high_risk :
        auto_approved a.risk_level ≡ false
        → let (r, s') = submit_action_for_execution a actor_id e s in
          (r ≡ ok (record a { status = ActionStatus.awaiting_approval }, some asked))
          × (action_row a.id s'.db ≡ some (record a { status = ActionStatus.awaiting_approval }))
          × (s'.db.outbox ≡ s.db.outbox)
          × (s'.db.approvals ≡ s.db.approvals ++ asked ∷ [])
    unfolding submit_action_for_execution request_approval
    submit_high_risk human = rw (validate_waiting human) (
      refl,
      row-transitioned as_validating ActionStatus.awaiting_approval actor_id none e validated
          validating_found,
      outbox-transitioned as_validating ActionStatus.awaiting_approval actor_id none e validated
          ∙ outbox-transitioned a ActionStatus.validating actor_id none e s,
      ap (insert asked) (
          approvals-transitioned as_validating ActionStatus.awaiting_approval actor_id none e
            validated
          ∙ approvals-transitioned a ActionStatus.validating actor_id none e s),
    )
