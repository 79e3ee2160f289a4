-- ===== src/Tests/Telegram.antt =====
-- The theorems on the Telegram relay at concrete entries and replies.
use doda.Base.{ℕ, zero, suc, ◌≤◌, true, some, List, [], ◌≡◌, ◌⊎◌, refl}
use doda.Base.Table.{length}
use doda.Json.{text, object, field, end, num, bool}
use doda.Wire.{Post}
use doda.Db.{State, ok}
use doda.Domain.Action.{Action, ActionStatus, RiskLevel}
use doda.ActionService.Transition.{action_row}
use doda.Telegram.{Reply, connect_timeout, response, send_message, read_body}
use doda.TelegramRelay.{Others, Entry, is_claimable, send_with_retries, process_entry}
use doda.TelegramRelay.Retries.{IsSending, send_with_retries_bounded}
use doda.TelegramRelay.Redelivery.{redelivery_sends_nothing}
use doda.TelegramRelay.Outcome.{request, process_entry_resolves, status_after, claimed}
use doda.Tests.Data.{demo, draft, with_action}

-- The first request times out, and Telegram takes the others.
abbrev pub second_works : ℕ → Reply
second_works zero = connect_timeout
second_works (suc n) = response 200 (
    some (
      object
        (field "ok" (bool true) (field "result" (object (field "message_id" (num 77) end)) end))))

abbrev message : Action
message = record (draft RiskLevel.r3) {
  tool_name = "telegram.send_message";
  payload = object (field "chat_id" (text "42") (field "text" (text "hello") end));
  status = ActionStatus.ready;
}

abbrev quiet : Others
quiet = record { before_lock = λ db. db; while_sending = λ db. db }

abbrev pub delivery : Entry
delivery = record { entry_id = 1; customer_id = some 1; aggregate_id = some 5 }

abbrev hello : Post
hello = request "token" "42" "hello"

send_with_retries_runs :
    (send_with_retries second_works hello demo (with_action message)).0 ≡ ok (num 77)
unfolding send_with_retries send_message read_body
send_with_retries_runs = refl

send_with_retries_bounded_example :
    IsSending 3 second_works hello
      (with_action message)
      (send_with_retries second_works hello demo (with_action message)).1
send_with_retries_bounded_example =
    send_with_retries_bounded second_works hello demo (with_action message)

abbrev after_one : State
after_one = (process_entry quiet second_works (some "token") delivery demo (with_action message)).1

redelivery_sends_nothing_example :
    (after_one.posts ≡ [])
    ⊎ (((action : Action) × (some message ≡ some action) × (is_claimable action ≡ true))
        × ((posted : List Post) × (after_one.posts ≡ posted) × (length posted ≤ 3))
        × (process_entry quiet second_works (some "token") delivery demo after_one
            ≡ (ok tt, after_one)))
redelivery_sends_nothing_example =
    redelivery_sends_nothing quiet quiet (λ db. db) second_works second_works (some "token")
      delivery demo (with_action message) 5 1 refl refl (λ db h. h) (λ db h. h)

process_entry_resolves_example :
    let sending =
      send_with_retries second_works hello demo
        (claimed quiet message demo (with_action message)) in
    (action_row 5 after_one.db ≡ some (record message { status = status_after sending.0 }))
process_entry_resolves_example =
    (process_entry_resolves quiet second_works "token" delivery demo (with_action message) 5 1
      message (field "chat_id" (text "42") (field "text" (text "hello") end)) "42" "hello" refl refl
      refl refl refl refl refl (λ db. refl) (λ db. refl)).1
