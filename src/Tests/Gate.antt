-- ===== src/Tests/Gate.antt =====
-- The gate over a history: a message is proposed, approved and sent.
use doda.Base.{false, none, some, List, [], ◌∷◌, ◌≡◌, ◌⊎◌, refl}
use doda.Base.Table.{find}
use doda.Json.{text, object, field, end}
use doda.Db.{State, ok, transaction}
use doda.Domain.Action.{Action, ActionStatus, RiskLevel, Approval}
use doda.Domain.Identity.{Session, AuthStrength}
use doda.Domain.Security.{CustomerRole, StoredRole}
use doda.Domain.Tenant.{CustomerMembership, Workspace}
use doda.ActionService.Transition.{action_row}
use doda.TelegramRelay.{process_entry}
use doda.Session.Lifetime.{touched_state}
use doda.Api.{RequestContext, get_request_context, resolve_request_context}
use doda.Api.Entry.{IsEntered, IsRefused, request_cases}
use doda.Api.Approving.{IsAllowed, approving_passes_all}
use doda.Api.Actions.{consume_action_approval, list_workspace_actions, ProposeRequest}
use doda.Gate.Rows.{approves}
use doda.Gate.History.{
  Call, run, meanwhile, IsApprovedBy, no_run_without_approval, no_message_without_approval,
}
use doda.Tests.Data.{demo, empty, at_start}
use doda.Tests.Telegram.{second_works, delivery}

-- User 7 owns customer 1, with workspace 2, and has a strong session.
abbrev pub strong_session : Session
strong_session = record {
  id = 7;
  created_at = 1;
  user_id = 7;
  auth_strength = AuthStrength.aal2;
  last_seen_at = 90;
  expires_at = 100000;
  revoked_at = none;
  user_agent = none;
}

abbrev owner : CustomerMembership
owner = record {
  id = 11;
  created_at = 1;
  customer_id = 1;
  user_id = 7;
  role = StoredRole.role CustomerRole.customer_owner;
}

abbrev office : Workspace
office = record { id = 2; created_at = 1; customer_id = 1; name = "office"; archived_at = none }

abbrev pub home : State
home = at_start (record empty {
  sessions = strong_session ∷ [];
  customer_memberships = owner ∷ [];
  workspaces = office ∷ [];
  workspace_tenant_index = record { workspace_id = 2; customer_id = 1 } ∷ [];
})

abbrev pub body : ProposeRequest
body = record {
  trace_id = 9;
  tool_name = "telegram.send_message";
  risk_level = RiskLevel.r0;
  payload = object (field "chat_id" (text "42") (field "text" (text "hello") end));
  task_id = none;
  idempotency_key = "key";
}

-- The proposal, the approval by its actor, and the delivery.
abbrev calls : List Call
calls =
    Call.propose 2 (some "Bearer x") body
    ∷ Call.consume 2 (some "Bearer x") 107 "token"
    ∷ Call.deliver (λ db. db) (λ db. db) second_works (some "token")
        (record delivery { aggregate_id = some 100 })
    ∷ []

abbrev sent : Action
sent = record {
  id = 100;
  created_at = 101;
  customer_id = 1;
  workspace_id = 2;
  trace_id = 9;
  task_id = none;
  actor_id = "user:id";
  tool_name = "telegram.send_message";
  risk_level = RiskLevel.r3;
  payload = object (field "chat_id" (text "42") (field "text" (text "hello") end));
  payload_hash = "hash of dump";
  idempotency_key = "key";
  status = ActionStatus.succeeded;
}

stored : action_row 100 (run demo home calls).db ≡ some sent
unfolding run doda.Gate.History.step process_entry doda.TelegramRelay.drive_to_running
    doda.Api.get_request_context doda.Api.parse_bearer_session_id doda.Db.transaction
    doda.Session.resolve_session doda.Authz.get_workspace_context
    doda.Api.Actions.propose_and_submit_action doda.Authz.Checks.authorize_propose_action
    doda.ActionService.Propose.propose_action doda.KillSwitch.assert_not_killed
    doda.Audit.record_audit_event doda.ActionService.Submit.submit_action_for_execution
    doda.ActionService.Submit.validate_action doda.ActionService.Transition.apply_transition
    doda.Domain.Action.Machine.transition doda.ActionService.Consume.announce_granted
    doda.ActionService.Consume.consume_approval doda.ActionService.Consume.grant
    doda.ActionService.Consume.set_approved doda.ActionService.Submit.announce_ready
    doda.ActionService.Submit.ask_approval doda.ActionService.Submit.request_approval
    doda.ActionService.Submit.route doda.ActionService.Transition.reload
    doda.Api.Actions.consume_action_approval doda.Api.Actions.consume_as
    doda.Api.Actions.consume_found doda.Api.Actions.get_workspace_action doda.Api.Actions.own_action
    doda.Api.Actions.propose_as doda.Api.Actions.submit_or_replay doda.Api.enter_workspace
    doda.Api.in_workspace doda.Api.parse_header doda.Api.resolve_index
    doda.Api.resolve_request_context doda.Authz.Checks.authorize_consume_approval
    doda.Domain.Action.Machine.allowed doda.Domain.Action.Policy.enforce_minimum_risk_level
    doda.Domain.Action.Policy.risk_order doda.Domain.Action.Policy.tool_minimum_risk_level
    doda.Env.user_actor doda.Hashing.canonical_json doda.Hashing.hash_payload
    doda.Outbox.enqueue_outbox_message doda.Telegram.read_body doda.Telegram.read_reply
    doda.Telegram.send_message doda.TelegramRelay.claim doda.TelegramRelay.conclude
    doda.TelegramRelay.resolve doda.TelegramRelay.resolve_found doda.TelegramRelay.resolve_row
    doda.TelegramRelay.send_claimed doda.TelegramRelay.send_payload
    doda.TelegramRelay.send_with_retries doda.TelegramRelay.send_with_token
    doda.Notification.create_notification doda.Notification.is_notification_type_enabled
    doda.Notification.deliver
stored = refl

no_run_without_approval_example :
    (p : Approval) × (find (approves 100 "hash of dump") (run demo home calls).db.approvals
      ≡ some p)
    × IsApprovedBy demo sent p
no_run_without_approval_example =
    no_run_without_approval demo home calls refl 100 sent stored refl refl

no_message_without_approval_example :
    let s' = run demo home calls in
    ((process_entry
        (meanwhile (λ db. db) (λ db. db))
        second_works
        (some "token")
        delivery
        demo
        s').1.posts
      ≡ s'.posts)
    ⊎ ((a : Action) × (action_row 5 s'.db ≡ some a)
        × ((p : Approval) × (find (approves a.id a.payload_hash) s'.db.approvals ≡ some p)
            × IsApprovedBy demo a p))
no_message_without_approval_example =
    no_message_without_approval demo home calls refl (λ db. db) (λ db. db) second_works
      (some "token") delivery 5 1 refl refl

-- The state once the message is proposed, and the action that the approval returns.
abbrev asking : State
asking = run demo home (Call.propose 2 (some "Bearer x") body ∷ [])

abbrev ready : Action
ready = record sent { status = ActionStatus.ready }

granted :
    (get_request_context 2 (some "Bearer x") (consume_action_approval 107 "token") demo asking).0
    ≡ ok ready
unfolding run doda.Gate.History.step process_entry doda.TelegramRelay.drive_to_running
    doda.Api.get_request_context doda.Api.parse_bearer_session_id doda.Db.transaction
    doda.Session.resolve_session doda.Authz.get_workspace_context
    doda.Api.Actions.propose_and_submit_action doda.Authz.Checks.authorize_propose_action
    doda.ActionService.Propose.propose_action doda.KillSwitch.assert_not_killed
    doda.Audit.record_audit_event doda.ActionService.Submit.submit_action_for_execution
    doda.ActionService.Submit.validate_action doda.ActionService.Transition.apply_transition
    doda.Domain.Action.Machine.transition doda.ActionService.Consume.announce_granted
    doda.ActionService.Consume.consume_approval doda.ActionService.Consume.grant
    doda.ActionService.Consume.set_approved doda.ActionService.Submit.announce_ready
    doda.ActionService.Submit.ask_approval doda.ActionService.Submit.request_approval
    doda.ActionService.Submit.route doda.ActionService.Transition.reload
    doda.Api.Actions.consume_action_approval doda.Api.Actions.consume_as
    doda.Api.Actions.consume_found doda.Api.Actions.get_workspace_action doda.Api.Actions.own_action
    doda.Api.Actions.propose_as doda.Api.Actions.submit_or_replay doda.Api.enter_workspace
    doda.Api.in_workspace doda.Api.parse_header doda.Api.resolve_index
    doda.Api.resolve_request_context doda.Authz.Checks.authorize_consume_approval
    doda.Domain.Action.Machine.allowed doda.Domain.Action.Policy.enforce_minimum_risk_level
    doda.Domain.Action.Policy.risk_order doda.Domain.Action.Policy.tool_minimum_risk_level
    doda.Env.user_actor doda.Hashing.canonical_json doda.Hashing.hash_payload
    doda.Outbox.enqueue_outbox_message doda.Telegram.read_body doda.Telegram.read_reply
    doda.Telegram.send_message doda.TelegramRelay.claim doda.TelegramRelay.conclude
    doda.TelegramRelay.resolve doda.TelegramRelay.resolve_found doda.TelegramRelay.resolve_row
    doda.TelegramRelay.send_claimed doda.TelegramRelay.send_payload
    doda.TelegramRelay.send_with_retries doda.TelegramRelay.send_with_token
    doda.Notification.create_notification doda.Notification.is_notification_type_enabled
    doda.Notification.deliver
granted = refl

approving_passes_all_example :
    (ctx : RequestContext) × (session : Session) × IsEntered 2
      (some "Bearer x")
      false
      demo
      asking
      ctx
      session
    × (session.auth_strength ≡ AuthStrength.aal2)
    × IsAllowed ctx 107 "token" demo (touched_state session demo asking)
approving_passes_all_example =
    approving_passes_all 2 (some "Bearer x") 107 "token" demo asking ready granted

request_cases_example :
    let out =
      resolve_request_context 2
        (some "Bearer x")
        false
        (list_workspace_actions none 50)
        demo
        home in
    IsRefused (some "Bearer x") demo out home
    ⊎ ((ctx : RequestContext) × (session : Session) × IsEntered 2
          (some "Bearer x")
          false
          demo
          home
          ctx
          session
        × (out
            ≡ transaction
                (list_workspace_actions none 50 ctx)
                demo
                (touched_state session demo home)))
request_cases_example =
    request_cases 2 (some "Bearer x") false (list_workspace_actions none 50) demo home
