-- ===== src/Gate/History.antt =====
-- Any history of calls, one after another: requests of the HTTP API on actions, messages to a chat,
-- whose model may answer anything, deliveries of the Telegram relay, and whatever else writes
-- neither actions nor approvals.
use doda.Base.{
  ℕ, String, true, false, Option, some, List, [], ◌∷◌, ◌≡◌, ◌⊎◌, ap, ◌∙◌, arith, str_eq, eq_iff,
  inl, inr,
}
use doda.Base.Table.{find}
use doda.Base.Table.Any.{any-find}
use doda.Base.Table.Laws.{find_holds}
use doda.Env.{Env}
use doda.Db.{Db, State}
use doda.Hashing.{hash_payload}
use doda.Domain.Action.{Action, ActionStatus, auto_approved, Approval, ApprovalStatus}
use doda.ActionService.Transition.{action_row}
use doda.Telegram.{Replies}
use doda.TelegramRelay.{is_claimable, process_entry, Others, Entry}
use doda.TelegramRelay.Redelivery.{process_entry_delivers, skipped, refused, handled}
use doda.Api.{get_request_context}
use doda.Api.Actions.{
  ProposeRequest, propose_and_submit_action, consume_action_approval, cancel_action,
  complete_action_compensation,
}
use doda.Gate.Rows.{past_gate, is_approved, approves, Gate}
use doda.Gate.Calls.{
  request-Gate, propose_and_submit-Keeps, consume-Keeps, cancel-Keeps, complete-Keeps,
}
use doda.Gate.Posts.{post-Keeps}
use doda.Chat.Context.{World}
use doda.Domain.Ai.{ChatMode}
use doda.Api.Conversations.{post_conversation_message}
use doda.Gate.Deliveries.{delivery-Keeps}

-- A request has a workspace's id and an `Authorization` header. A delivery has what other
-- transactions commit meanwhile. A message to a chat has what its turn takes from outside.
pub data Call : Type 0 where
  propose : ℕ → Option String → ProposeRequest → Call
  consume : ℕ → Option String → ℕ → String → Call
  cancel : ℕ → Option String → ℕ → Call
  complete : ℕ → Option String → ℕ → ActionStatus → Call
  deliver : (Db → Db) → (Db → Db) → Replies → Option String → Entry → Call
  chat : World → ℕ → Option String → ℕ → ℕ → String → ChatMode → Call
  elsewhere : (Db → Db) → Call

-- The change, but for the two tables.
abbrev pub leaving : (Db → Db) → Db → Db
leaving f db = record (f db) { actions = db.actions; approvals = db.approvals }

abbrev pub meanwhile : (Db → Db) → (Db → Db) → Others
meanwhile f g = record { before_lock = leaving f; while_sending = leaving g }

abbrev pub aside : World → World
aside w = record w { meanwhile = leaving w.meanwhile }

unfoldable pub step : Env → State → Call → State
step e s (propose workspace_id authorization body) =
    (get_request_context workspace_id authorization (propose_and_submit_action body) e s).1
step e s (consume workspace_id authorization approval_id nonce) =
    (get_request_context workspace_id authorization (consume_action_approval approval_id nonce) e
      s).1
step e s (cancel workspace_id authorization action_id) =
    (get_request_context workspace_id authorization (cancel_action action_id) e s).1
step e s (complete workspace_id authorization action_id outcome) =
    (get_request_context workspace_id authorization (complete_action_compensation action_id outcome)
      e s).1
step e s (deliver f g replies bot_token entry) =
    (process_entry (meanwhile f g) replies bot_token entry e s).1
step e s (chat w workspace_id authorization conversation_id trace_id content mode) =
    (get_request_context workspace_id authorization
      (post_conversation_message (aside w) conversation_id trace_id content mode) e s).1
step e s (elsewhere f) = record s { db = leaving f s.db }

unfoldable pub run : Env → State → List Call → State
run e s [] = s
run e s (c ∷ calls) = run e (step e s c) calls

step-Gate : (e : Env) (s : State) (c : Call) → Gate e s → Gate e (step e s c)
unfolding step
step-Gate e s (propose w h body) g =
    (request-Gate e w h (propose_and_submit_action body) (propose_and_submit-Keeps e body)).at s g
step-Gate e s (consume w h id nonce) g =
    (request-Gate e w h (consume_action_approval id nonce) (consume-Keeps e id nonce)).at s g
step-Gate e s (cancel w h id) g = (request-Gate e w h (cancel_action id) (cancel-Keeps e id)).at s g
step-Gate e s (complete w h id outcome) g =
    (request-Gate e w h (complete_action_compensation id outcome) (complete-Keeps e id outcome)).at
      s g
step-Gate e s (deliver f f' replies token entry) g =
    (delivery-Keeps e (meanwhile f f') replies token entry (λ s g. g) (λ s g. g)).at s g
step-Gate e s (chat w i h id trace_id content mode) g =
    (request-Gate e i h (post_conversation_message (aside w) id trace_id content mode)
        (λ ctx. post-Keeps e ctx (aside w) id trace_id content mode (λ s g. g))).at
      s g
step-Gate e s (elsewhere f) g = g

run-Gate : (e : Env) (s : State) (calls : List Call) → Gate e s → Gate e (run e s calls)
unfolding run
run-Gate e s [] g = g
run-Gate e s (c ∷ calls) g = run-Gate e (step e s c) calls (step-Gate e s c g)

no_actions-Gate : (e : Env) (s : State) → s.db.actions ≡ [] → Gate e s
no_actions-Gate e s none_yet id a found = let no_row = rw none_yet at found in cc

-- A granted approval for an action and its payload.
pub record IsApprovedBy (e : Env) (a : Action) (p : Approval) : Type 0 where
  pub for_action : p.action_id ≡ a.id
  pub for_payload : p.payload_hash ≡ hash_payload e a.payload
  pub granted : p.status ≡ ApprovalStatus.approved

approved_only :
    (status : ApprovalStatus) → is_approved status ≡ true → status ≡ ApprovalStatus.approved
approved_only status h = ground (arith, h)

split_approves :
    (id : ℕ) (h : String) (p : Approval)
    → approves id h p ≡ true
    → (p.action_id ≡ id) × (str_eq p.payload_hash h ≡ true) × (is_approved p.status ≡ true)
split_approves id h p t = ground (arith, t)

module _ (e : Env) (s : State) (calls : List Call) (at_first : s.db.actions ≡ []) where
  -- After any history that begins with no actions, an action whose risk is R3 or more, and whose
  -- status is READY, RUNNING, SUCCEEDED, FAILED, RETRYING, COMPENSATING or COMPENSATED, has a
  -- stored approval that is granted, for this action and for the hash of the payload that it has.
  pub no_run_without_approval :
      (id : ℕ) (a : Action)
      → action_row id (run e s calls).db ≡ some a
      → past_gate a.status ≡ true
      → auto_approved a.risk_level ≡ false
      → (p : Approval) × (find (approves a.id a.payload_hash) (run e s calls).db.approvals ≡ some p)
        × IsApprovedBy e a p
  no_run_without_approval id a found past risky =
      let row = run-Gate e s calls (no_actions-Gate e s at_first) id a found in
      let (p, stored) =
        any-find (approves a.id a.payload_hash) (run e s calls).db.approvals
          (row.approved past risky) in
      let (named, same, granted) =
        split_approves a.id a.payload_hash p
          (find_holds (approves a.id a.payload_hash) (run e s calls).db.approvals p stored) in
      (
        p,
        stored,
        record {
          for_action = named;
          for_payload = (eq_iff p.payload_hash a.payload_hash).0 same ∙ row.hashed;
          granted = approved_only p.status granted;
        },
      )

  claimable_telegram :
      (a : Action)
      → is_claimable a ≡ true
      → (a.tool_name ≡ "telegram.send_message") × (past_gate a.status ≡ true)
  claimable_telegram a h =
      ((eq_iff a.tool_name "telegram.send_message").0 (ground (arith, h)), ground (arith, h))

  -- After any history that begins with no actions, a delivery of the Telegram relay either posts
  -- nothing to Telegram, or its action is in the tables with a granted approval for this action and
  -- for the hash of its payload, whatever risk level its proposal asked for.
  pub no_message_without_approval :
      (f g : Db → Db) (replies : Replies) (bot_token : Option String) (entry : Entry) (id c : ℕ)
      → entry.customer_id ≡ some c
      → entry.aggregate_id ≡ some id
      → let s' = run e s calls in
        ((process_entry (meanwhile f g) replies bot_token entry e s').1.posts ≡ s'.posts)
        ⊎ ((a : Action) × (action_row id s'.db ≡ some a)
            × ((p : Approval) × (find (approves a.id a.payload_hash) s'.db.approvals ≡ some p)
                × IsApprovedBy e a p))
  no_message_without_approval f g replies bot_token entry id c customer named =
      elim (process_entry_delivers (meanwhile f g) replies bot_token entry e (run e s calls) id c
        customer named (λ db past. past)) [
          | skipped same ↦ inl (ap (λ (t : State). t.posts) same)
          | refused same ↦ inl same
          | handled a posted found ours sent bounded past ↦
              let (telegram, past_it) = claimable_telegram a ours in
              let row = run-Gate e s calls (no_actions-Gate e s at_first) id a found in
              inr (a, found, no_run_without_approval id a found past_it (row.floored telegram))
        ]
