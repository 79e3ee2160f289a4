-- ===== src/TelegramRelay.antt =====
-- backend/src/doda/infrastructure/telegram_relay.py: from a stream entry to a message that is sent
-- and an action that is resolved.
pub mod Retries
pub mod Claims
pub mod Redelivery
pub mod Outcome
use doda.Base.{
  ℕ, zero, suc, String, Bool, true, false, not, ◌&&◌, ◌||◌, Option, none, some, List, [], ◌∷◌,
  str_eq, if◌then◌else◌,
}
use doda.Base.Table.{insert}
use doda.Json.{Json, object, field, end, get, as_text}
use doda.Wire.{Post}
use doda.Db.{
  Db, M, Error, Result, ok, err, value_error, assertion_error, telegram_send_error,
  telegram_transient_error, ◌>>=◌, ◌>>◌, pure, raise, gets, modify, some_or_raise, attempt,
  transaction,
}
use doda.Domain.Action.{Action, ActionStatus}
use doda.ActionService.Transition.{action_row, apply_transition}
use doda.Telegram.{Replies, send_message, fields_of}

-- What other transactions commit between the lookup of an action and its lock, and while the
-- message is sent.
pub record Others : Type 0 where
  pub before_lock : Db → Db
  pub while_sending : Db → Db

-- An entry of the stream. An id that is missing or is not a UUID is `none`.
pub record Entry : Type 0 where
  pub entry_id : ℕ
  pub customer_id : Option ℕ
  pub aggregate_id : Option ℕ

abbrev pub telegram_tool_name : String
telegram_tool_name = "telegram.send_message"

abbrev pub actor_id : String
actor_id = "system:telegram_connector"

abbrev pub telegram_send_attempts : ℕ
telegram_send_attempts = 3

abbrev pub is_ready : ActionStatus → Bool
is_ready ActionStatus.ready = true
is_ready _ = false

-- The delivery is this connector's, and no earlier one has handled it.
abbrev pub is_claimable : Action → Bool
is_claimable action = str_eq action.tool_name telegram_tool_name && is_ready action.status

-- The rest of `_drive_to_running`, by the row. Its transaction has written nothing before the lock,
-- so it begins there.
unfoldable pub claim : (Db → Db) → Option Action → M (Option Action)
claim before_lock none = pure none
claim before_lock (some action) =
    if is_claimable action
    then (do
      modify before_lock
      running ← transaction (apply_transition action ActionStatus.running actor_id none)
      pure (some running))
    else pure none

unfoldable pub drive_to_running : (Db → Db) → ℕ → M (Option Action)
unfolding claim
drive_to_running before_lock action_id = do
  found ← gets (action_row action_id)
  claim before_lock found

unfoldable pub resolve_found : Option Action → ActionStatus → Option Json → M (Unit {0})
resolve_found none target receipt = raise assertion_error
resolve_found (some action) target receipt = do
  apply_transition action target actor_id receipt
  pure tt

unfoldable pub resolve_row : ℕ → ActionStatus → Option Json → M (Unit {0})
unfolding resolve_found
resolve_row action_id target receipt = do
  found ← gets (action_row action_id)
  resolve_found found target receipt

unfoldable pub resolve : ℕ → ActionStatus → Option Json → M (Unit {0})
unfolding resolve_row
resolve action_id target receipt = transaction (resolve_row action_id target receipt)

-- The end of a round of the loop: a transient failure goes on to the next.
next_round : M Json → Result Json → M Json
next_round next (ok message_id) = pure message_id
next_round next (err telegram_transient_error) = next
next_round next (err error) = raise error

-- The loop, by the rounds that are left. Only a transient failure gets to its end.
send_rounds : ℕ → Replies → Post → M Json
unfolding next_round
send_rounds zero replies p = raise telegram_transient_error
send_rounds (suc left) replies p = do
  result ← attempt (send_message replies p)
  next_round (send_rounds left replies p) result

unfoldable pub send_with_retries : Replies → Post → M Json
unfolding send_rounds
send_with_retries replies p = send_rounds telegram_send_attempts replies p

-- `except TelegramSendError`, and what follows the `try`.
unfoldable pub conclude : ℕ → Result Json → M (Unit {0})
conclude action_id (ok message_id) =
    resolve action_id ActionStatus.succeeded (some (object (field "message_id" message_id end)))
conclude action_id (err telegram_send_error) = resolve action_id ActionStatus.failed none
conclude action_id (err telegram_transient_error) = resolve action_id ActionStatus.failed none
conclude action_id (err error) = raise error

-- The message, if the payload's `chat_id` and `text` are texts.
unfoldable pub send_payload :
    (Db → Db) → Replies → String → ℕ → Option String → Option String → M (Unit {0})
unfolding conclude
send_payload while_sending replies bot_token action_id (some chat_id) (some text) = do
  result ←
      attempt (
        send_with_retries replies
          (record { bot_token = bot_token; chat_id = chat_id; text = text }))
  modify while_sending
  conclude action_id result
send_payload while_sending replies bot_token action_id (some chat_id) none =
    resolve action_id ActionStatus.failed none
send_payload while_sending replies bot_token action_id none text =
    resolve action_id ActionStatus.failed none

unfoldable pub send_with_token : (Db → Db) → Replies → Option String → ℕ → Action → M (Unit {0})
unfolding send_payload
send_with_token while_sending replies none action_id action =
    resolve action_id ActionStatus.failed none
send_with_token while_sending replies (some bot_token) action_id action = do
  fields ← fields_of action.payload
  send_payload while_sending replies bot_token action_id (as_text (get fields "chat_id"))
      (as_text (get fields "text"))

unfoldable pub send_claimed : (Db → Db) → Replies → Option String → ℕ → Option Action → M (Unit {0})
unfolding send_with_token
send_claimed while_sending replies bot_token action_id none = pure tt
send_claimed while_sending replies bot_token action_id (some action) =
    send_with_token while_sending replies bot_token action_id action

unfoldable pub process_entry : Others → Replies → Option String → Entry → M (Unit {0})
unfolding send_claimed
process_entry others replies bot_token entry = do
  customer_id ← some_or_raise entry.customer_id value_error
  action_id ← some_or_raise entry.aggregate_id value_error
  running ← drive_to_running others.before_lock action_id
  send_claimed others.while_sending replies bot_token action_id running

-- `redis.xack`
abbrev xack : ℕ → M (Unit {0})
xack entry_id e s = (ok tt, record s { acked = insert entry_id s.acked })

-- The end of a round: an entry that raised is left as it is.
acknowledge : Entry → M ℕ → Result (Unit {0}) → M ℕ
acknowledge entry rest (ok _) = do xack entry.entry_id; processed ← rest; pure (suc processed)
acknowledge entry rest (err error) = rest

-- `relay_once`, by the entries that XREADGROUP returned.
unfoldable pub relay_once : (Entry → Others) → Replies → Option String → List Entry → M ℕ
unfolding acknowledge
relay_once others replies bot_token [] = pure 0
relay_once others replies bot_token (entry ∷ entries) = do
  result ← attempt (process_entry (others entry) replies bot_token entry)
  acknowledge entry (relay_once others replies bot_token entries) result
