-- ===== src/TelegramRelay/Outcome.antt =====
-- What a delivered message makes of its action.
use doda.Base.{
  ℕ, String, true, false, ◌&&◌, Option, none, some, ◌≡◌, refl, ap, sym, ◌∙◌, arith, ◌==◌, is_none,
}
use doda.Base.Table.Laws.{find_holds}
use doda.Json.{Json, Fields, text, object, field, end, get}
use doda.Wire.{Post}
use doda.Env.{Env}
use doda.Db.{Db, State, Result, ok, err, transaction, telegram_send_error, telegram_transient_error}
use doda.Domain.Action.{Action, ActionStatus}
use doda.Domain.Action.Machine.{allowed}
use doda.ActionService.Transition.{action_row, needs_receipt}
use doda.ActionService.Transition.Effect.{apply_transition_ok, transitioned, row-transitioned}
use doda.Telegram.{Replies}
use doda.TelegramRelay.{
  is_claimable, actor_id, claim, drive_to_running, resolve_row, resolve_found, resolve,
  send_claimed, conclude, send_payload, send_with_token, send_with_retries, process_entry, Others,
  Entry,
}
use doda.TelegramRelay.Retries.{send_with_retries_bounded}

-- The receipt of a message that was sent.
abbrev receipt_of : Json → Json
receipt_of message_id = object (field "message_id" message_id end)

-- The status that the end of the sending leads to: an error that is not Telegram's leaves the
-- action as it is.
abbrev pub status_after : Result Json → ActionStatus
status_after (ok message_id) = ActionStatus.succeeded
status_after (err telegram_send_error) = ActionStatus.failed
status_after (err telegram_transient_error) = ActionStatus.failed
status_after (err error) = ActionStatus.running

-- What the delivery returns: an error that is not Telegram's is raised.
abbrev pub entry_result : Result Json → Result (Unit {0})
entry_result (ok message_id) = ok tt
entry_result (err telegram_send_error) = ok tt
entry_result (err telegram_transient_error) = ok tt
entry_result (err error) = err error

module _ (id : ℕ) (action : Action) (e : Env) (s : State)
    (found : action_row id s.db ≡ some action) where
  same_id : action.id ≡ id
  same_id = ground (arith, find_holds (λ (a : Action). a.id == id) s.db.actions action found)

  own_row : action_row action.id s.db ≡ some action
  own_row = ap (λ (i : ℕ). action_row i s.db) same_id ∙ found

  row_after :
      (target : ActionStatus) (receipt : Option Json)
      → action_row id (transitioned action target actor_id receipt e s).db
        ≡ some (record action { status = target })
  row_after target receipt =
      ap (λ (i : ℕ). action_row i (transitioned action target actor_id receipt e s).db)
        (sym same_id)
      ∙ row-transitioned action target actor_id receipt e s own_row

  resolve_ok :
      (target : ActionStatus) (receipt : Option Json)
      → (needs_receipt target && is_none receipt) ≡ false
      → allowed action.status target ≡ true
      → resolve id target receipt e s ≡ (ok tt, transitioned action target actor_id receipt e s)
  unfolding resolve resolve_row resolve_found transaction
  resolve_ok target receipt fine good =
      rw found
        (rw (apply_transition_ok action action target actor_id receipt e s own_row fine good) refl)

  -- The end of a delivery whose action is RUNNING.
  conclude_lem :
      (r : Result Json)
      → action.status ≡ ActionStatus.running
      → (s' : State) × (conclude id r e s ≡ (entry_result r, s'))
        × (action_row id s'.db ≡ some (record action { status = status_after r }))
  unfolding conclude allowed
  conclude_lem (ok v) runs = (
    _,
    resolve_ok ActionStatus.succeeded (some (receipt_of v)) refl (rw runs refl),
    row_after ActionStatus.succeeded (some (receipt_of v)),
  )
  conclude_lem (err telegram_send_error) runs = (
    _,
    resolve_ok ActionStatus.failed none refl (rw runs refl),
    row_after ActionStatus.failed none,
  )
  conclude_lem (err telegram_transient_error) runs = (
    _,
    resolve_ok ActionStatus.failed none refl (rw runs refl),
    row_after ActionStatus.failed none,
  )
  conclude_lem (err x) runs = (s, refl, rw found (ground (arith, runs)))

ready_runs :
    (action : Action)
    → is_claimable action ≡ true
    → allowed action.status ActionStatus.running ≡ true
unfolding allowed
ready_runs action ours = ground (arith, ours)

-- The request for a payload.
abbrev pub request : String → String → String → Post
request bot_token chat_id message = record {
  bot_token = bot_token;
  chat_id = chat_id;
  text = message;
}

module _ (while_sending : Db → Db) (replies : Replies) (bot_token : String) (id : ℕ) (e : Env)
    (fields : Fields) (chat_id message : String)
    (quiet : (db : Db) → action_row id (while_sending db) ≡ action_row id db) where
  -- The message of a RUNNING action is sent, and the action is resolved.
  payload_resolves :
      (action : Action) (s : State)
      → action.status ≡ ActionStatus.running
      → action_row id s.db ≡ some action
      → let sending = send_with_retries replies (request bot_token chat_id message) e s in
        let (r, s') =
          send_payload while_sending replies bot_token id (some chat_id) (some message) e s in
        (r ≡ entry_result sending.0)
        × (action_row id s'.db ≡ some (record action { status = status_after sending.0 }))
  unfolding send_payload
  payload_resolves action s runs found =
      let sends = send_with_retries_bounded replies (request bot_token chat_id message) e s in
      let (r, s') = send_with_retries replies (request bot_token chat_id message) e s in
      let still : action_row id (while_sending s'.db) ≡ some action =
        quiet s'.db ∙ ap (λ (t : State). action_row id t.db) sends.sent ∙ found in
      let (last, ends, row) =
        conclude_lem id action e (record s' { db = while_sending s'.db }) still r runs in
      rw ends (refl, row)

  token_lem :
      (action : Action) (s : State)
      → action.payload ≡ object fields
      → get fields "chat_id" ≡ some (text chat_id)
      → get fields "text" ≡ some (text message)
      → send_with_token while_sending replies (some bot_token) id action e s
        ≡ send_payload while_sending replies bot_token id (some chat_id) (some message) e s
  unfolding send_with_token
  token_lem action s shape chat words = rw shape (rw (chat, words) refl)

-- The state in which the message is sent: the action is claimed.
abbrev pub claimed : Others → Action → Env → State → State
claimed others action e s =
    transitioned action ActionStatus.running actor_id none e
      (record s { db = others.before_lock s.db })

module _ (others : Others) (replies : Replies) (bot_token : String) (entry : Entry) (e : Env)
    (s : State) (id c : ℕ) (action : Action) (fields : Fields) (chat_id message : String) where
  -- Where a bot token is configured, an entry whose customer and action ids are well formed, of a
  -- READY action of this connector whose payload has a chat and a text, is resolved by what the
  -- sending returns: SUCCEEDED if Telegram took the message, FAILED if it refused it or could not
  -- be reached, and in both cases the delivery returns. On any other error, such as an answer
  -- without a message id, the delivery raises and the action stays RUNNING. Assumed is that no
  -- other transaction touches the action's row meanwhile.
  pub process_entry_resolves :
      entry.customer_id ≡ some c
      → entry.aggregate_id ≡ some id
      → action_row id s.db ≡ some action
      → is_claimable action ≡ true
      → action.payload ≡ object fields
      → get fields "chat_id" ≡ some (text chat_id)
      → get fields "text" ≡ some (text message)
      → ((db : Db) → action_row id (others.before_lock db) ≡ action_row id db)
      → ((db : Db) → action_row id (others.while_sending db) ≡ action_row id db)
      → let sending =
          send_with_retries replies
            (request bot_token chat_id message)
            e
            (claimed others action e s) in
        let (r, s') = process_entry others replies (some bot_token) entry e s in
        (r ≡ entry_result sending.0)
        × (action_row id s'.db ≡ some (record action { status = status_after sending.0 }))
  unfolding process_entry drive_to_running claim send_claimed transaction
  process_entry_resolves customer names found ours shape chat words before quiet =
      let locked : State = record s { db = others.before_lock s.db } in
      let found' : action_row id locked.db ≡ some action = before s.db ∙ found in
      let runs : Action = record action { status = ActionStatus.running } in
      rw (customer, names, found, ours)
        (rw
          (apply_transition_ok action action ActionStatus.running actor_id none e locked
            (own_row id action e locked found') refl (ready_runs action ours))
          (rw
            (token_lem others.while_sending replies bot_token id e fields chat_id message quiet runs
              (claimed others action e s) shape chat words)
            (payload_resolves others.while_sending replies bot_token id e fields chat_id message
              quiet runs (claimed others action e s) refl
              (row_after id action e locked found' ActionStatus.running none))))
