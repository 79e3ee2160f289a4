-- ===== src/Gate/Deliveries.antt =====
-- The gate under the deliveries of the Telegram relay.
use doda.Base.{ℕ, String, false, Option, none, some, ◌≡◌, refl, inl, inr, Bool-cases, Option-cases}
use doda.Json.{Json, object, get, as_text}
use doda.Wire.{Post}
use doda.Env.{Env}
use doda.Db.{
  Db, State, Result, ok, err, telegram_send_error, telegram_transient_error, pure, transaction,
}
use doda.Db.Keeps.{Keeps, Keeps-transaction, Keeps-pure, bind_at}
use doda.Domain.Action.{Action, ActionStatus}
use doda.ActionService.Transition.{action_row, apply_transition}
use doda.ActionService.Transition.Invariants.{is_ready}
use doda.Telegram.{Replies}
use doda.TelegramRelay.{
  is_claimable, actor_id, claim, drive_to_running, resolve_found, resolve_row, resolve, conclude,
  send_payload, send_with_token, send_with_retries, send_claimed, process_entry, Others, Entry,
}
use doda.TelegramRelay.Retries.{send_with_retries_bounded}
use doda.Gate.Rows.{Gate}
use doda.Gate.Transitions.{Gate-transition}

-- What other transactions commit keeps the gate.
abbrev pub Respects : Env → (Db → Db) → Type 0
Respects e others = (s : State) → Gate e s → Gate e (record s { db = others s.db })

module _ (e : Env) where
  found-Keeps :
      (found : Option Action) (target : ActionStatus) (receipt : Option Json)
      → is_ready target ≡ false
      → Keeps e (Gate e) (resolve_found found target receipt)
  unfolding resolve_found
  found-Keeps none target receipt other = record { at = λ s g. g }
  found-Keeps (some action) target receipt other = record {
    at = λ s g.
        let kept = (Gate-transition e action target actor_id receipt other).at s g in
        bind_at (Gate e) (apply_transition action target actor_id receipt) (λ a. pure tt) e s kept
          (λ a returned. kept);
  }

  resolve-Keeps :
      (id : ℕ) (target : ActionStatus) (receipt : Option Json)
      → is_ready target ≡ false
      → Keeps e (Gate e) (resolve id target receipt)
  unfolding resolve resolve_row
  resolve-Keeps id target receipt other =
      Keeps-transaction e (Gate e) (resolve_row id target receipt) (λ s s' g g'. g)
        (record { at = λ s g. (found-Keeps (action_row id s.db) target receipt other).at s g })

  conclude-Keeps : (id : ℕ) (r : Result Json) → Keeps e (Gate e) (conclude id r)
  unfolding conclude
  conclude-Keeps id (ok v) = resolve-Keeps id ActionStatus.succeeded _ refl
  conclude-Keeps id (err telegram_send_error) = resolve-Keeps id ActionStatus.failed none refl
  conclude-Keeps id (err telegram_transient_error) = resolve-Keeps id ActionStatus.failed none refl
  conclude-Keeps id (err x) = record { at = λ s g. g }

  module _ (while_sending : Db → Db) (fair : Respects e while_sending) (replies : Replies)
      (id : ℕ) where
    payload-Keeps :
        (bot_token : String) (chat_id text : Option String)
        → Keeps e (Gate e) (send_payload while_sending replies bot_token id chat_id text)
    unfolding send_payload
    payload-Keeps bot_token (some chat_id) (some text) = record {
      at = λ s g.
          let p : Post = record { bot_token = bot_token; chat_id = chat_id; text = text } in
          let sends = send_with_retries_bounded replies p e s in
          let (r, s') = send_with_retries replies p e s in
          let kept : Gate e s' = rw sends.sent g in
          (conclude-Keeps id r).at (record s' { db = while_sending s'.db }) (fair s' kept);
    }
    payload-Keeps bot_token (some chat_id) none = resolve-Keeps id ActionStatus.failed none refl
    payload-Keeps bot_token none text = resolve-Keeps id ActionStatus.failed none refl

    token-Keeps :
        (bot_token : Option String) (action : Action) (payload : Json)
        → Keeps e (Gate e) (
            send_with_token while_sending replies bot_token id
              (record action { payload = payload }))
    unfolding send_with_token
    token-Keeps none action payload = resolve-Keeps id ActionStatus.failed none refl
    token-Keeps (some bot_token) action (object fields) = record {
      at = λ s g.
          (payload-Keeps bot_token (as_text (get fields "chat_id"))
              (as_text (get fields "text"))).at
            s g;
    }
    token-Keeps (some bot_token) action payload = record { at = λ s g. g }

    claimed-Keeps :
        (bot_token : Option String) (running : Option Action)
        → Keeps e (Gate e) (send_claimed while_sending replies bot_token id running)
    unfolding send_claimed
    claimed-Keeps bot_token none = Keeps-pure tt
    claimed-Keeps bot_token (some action) = token-Keeps bot_token action action.payload

  claim-Keeps :
      (before_lock : Db → Db)
      → Respects e before_lock
      → (found : Option Action) → Keeps e (Gate e) (claim before_lock found)
  unfolding claim
  claim-Keeps before_lock fair none = record { at = λ s g. g }
  claim-Keeps before_lock fair (some action) = record {
    at = λ s g. elim (Bool-cases (is_claimable action)) [
      | inr other ↦ rw other g
      | inl ours ↦
          let locked : State = record s { db = before_lock s.db } in
          let move = apply_transition action ActionStatus.running actor_id none in
          let kept =
            (Keeps-transaction e (Gate e) move (λ s s' g g'. g)
                (Gate-transition e action ActionStatus.running actor_id none refl)).at
              locked (fair s g) in
          rw ours (
            bind_at (Gate e) (transaction move) (λ x. pure (some x)) e locked kept
              (λ x returned. kept))
    ];
  }

  -- A delivery keeps the gate, if what other transactions commit meanwhile does.
  pub delivery-Keeps :
      (others : Others) (replies : Replies) (bot_token : Option String) (entry : Entry)
      → Respects e others.before_lock
      → Respects e others.while_sending
      → Keeps e (Gate e) (process_entry others replies bot_token entry)
  unfolding process_entry drive_to_running
  delivery-Keeps others replies bot_token entry fair fair' = record {
    at = λ s g. elim (Option-cases entry.customer_id) [
      | inl missing ↦ rw missing g
      | inr (c, customer) ↦ elim (Option-cases entry.aggregate_id) [
        | inl missing ↦ rw (customer, missing) g
        | inr (id, named) ↦
            let kept = (claim-Keeps others.before_lock fair (action_row id s.db)).at s g in
            rw (customer, named)
              (bind_at (Gate e) (claim others.before_lock (action_row id s.db))
                (send_claimed others.while_sending replies bot_token id) e s kept
                (λ running returned.
                  (claimed-Keeps others.while_sending fair' replies id bot_token running).at _
                    kept))
      ]
    ];
  }
