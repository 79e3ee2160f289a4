-- ===== src/TelegramRelay/Redelivery.antt =====
-- A stream entry that is delivered again sends nothing again.
use doda.Base.{
  ℕ, ◌≤◌, String, true, false, Option, none, some, List, [], ◌++◌, append-nil, ◌≡◌, ◌==◌, ◌⊎◌, refl,
  ap, sym, ◌∙◌, arith, inl, inr, Bool-cases, Option-cases,
}
use doda.Base.Table.{length}
use doda.Base.Table.Laws.{find_holds}
use doda.Json.{Json, object, get, as_text}
use doda.Wire.{Post}
use doda.Env.{Env}
use doda.Db.{
  Db, State, M, Result, ok, err, settle, pure, transaction, after, telegram_send_error,
  telegram_transient_error,
}
use doda.Db.Keeps.{Keeps, Keeps-transaction, Keeps-bind, Keeps-pure}
use doda.Domain.Action.{Action, ActionStatus}
use doda.ActionService.Transition.{action_row, apply_transition}
use doda.Telegram.{Replies}
use doda.TelegramRelay.{
  is_ready, is_claimable, actor_id, claim, drive_to_running, resolve_row, resolve_found, resolve,
  send_claimed, conclude, send_payload, send_with_token, send_with_retries, process_entry, Others,
  Entry,
}
use doda.TelegramRelay.Retries.{send_with_retries_bounded, replicate, length-replicate}
use doda.TelegramRelay.Claims.{IsPast, posts-transition, IsPast-transition, IsPast-after}

-- What other transactions commit does not make a past action READY again.
abbrev pub NeverRevives : ℕ → (Db → Db) → Type 0
NeverRevives id others = (db : Db) → IsPast id db → IsPast id (others db)

module _ (id : ℕ) (e : Env) where
  -- Resolving posts nothing and leaves the action past.
  Keeps-resolve :
      (ps : List Post) (target : ActionStatus) (receipt : Option Json)
      → is_ready target ≡ false
      → Keeps e (λ s. (s.posts ≡ ps) × IsPast id s.db) (resolve id target receipt)
  unfolding resolve resolve_row resolve_found
  Keeps-resolve ps target receipt h =
      Keeps-transaction e (λ s. (s.posts ≡ ps) × IsPast id s.db) (resolve_row id target receipt)
        (λ s s' p p'. (p'.0, p.1)) (record { at = λ s p. found_row (action_row id s.db) s p })
    where
      found_row :
          (found : Option Action) (s : State)
          → (s.posts ≡ ps) × IsPast id s.db
          → let s' = (resolve_found found target receipt e s).1 in (s'.posts ≡ ps) × IsPast id s'.db
      found_row none s p = p
      found_row (some action) s p =
          (Keeps-bind {e = e} {P = λ s. (s.posts ≡ ps) × IsPast id s.db}
              (apply_transition action target actor_id receipt) (λ a. pure tt)
              (record {
                at = λ s p. (
                  (posts-transition action target actor_id receipt e ps).at s p.0,
                  (IsPast-transition action target actor_id receipt e id h).at s p.1,
                );
              })
              (λ a. Keeps-pure tt)).at
            s p

  -- What a claimed delivery leaves: at most three more requests, and the action past.
  record IsDone (s s' : State) : Type 0 where
    posted : List Post
    sent : s'.posts ≡ s.posts ++ posted
    bounded : length posted ≤ 3
    past : IsPast id s'.db

  IsDone-quietly : (s s' : State) → (s'.posts ≡ s.posts) × IsPast id s'.db → IsDone s s'
  IsDone-quietly s s' (same, past) = record {
    posted = [];
    sent = same ∙ sym (append-nil s.posts);
    bounded = omega arith;
    past = past;
  }

  resolve-IsDone :
      (s : State) (target : ActionStatus) (receipt : Option Json)
      → is_ready target ≡ false
      → IsPast id s.db
      → IsDone s (resolve id target receipt e s).1
  resolve-IsDone s target receipt h past =
      IsDone-quietly s _ ((Keeps-resolve s.posts target receipt h).at s (refl, past))

  Keeps-conclude :
      (ps : List Post) (r : Result Json)
      → Keeps e (λ s. (s.posts ≡ ps) × IsPast id s.db) (conclude id r)
  unfolding conclude
  Keeps-conclude ps (ok v) = Keeps-resolve ps ActionStatus.succeeded _ refl
  Keeps-conclude ps (err telegram_send_error) = Keeps-resolve ps ActionStatus.failed none refl
  Keeps-conclude ps (err telegram_transient_error) = Keeps-resolve ps ActionStatus.failed none refl
  Keeps-conclude ps (err x) = record { at = λ s p. p }

  module _ (while_sending : Db → Db) (kind : NeverRevives id while_sending) (replies : Replies)
      (s : State) (past : IsPast id s.db) where
    payload-IsDone :
        (bot_token : String) (chat_id text : Option String)
        → IsDone s (send_payload while_sending replies bot_token id chat_id text e s).1
    unfolding send_payload
    payload-IsDone bot_token (some chat_id) (some text) =
        let p : Post = record { bot_token = bot_token; chat_id = chat_id; text = text } in
        let sends = send_with_retries_bounded replies p e s in
        let (r, s') = send_with_retries replies p e s in
        let kept : IsPast id (while_sending s'.db) =
          kind s'.db (rw (ap (λ (t : State). t.db) sends.sent) past) in
        let (posts, ends) =
          (Keeps-conclude s'.posts r).at (record s' { db = while_sending s'.db }) (refl, kept) in
        record {
          posted = replicate sends.times p;
          sent = posts ∙ ap (λ (t : State). t.posts) sends.sent;
          bounded = omega (arith, length-replicate sends.times p, sends.bounded);
          past = ends;
        }
    payload-IsDone bot_token (some chat_id) none =
        resolve-IsDone s ActionStatus.failed none refl past
    payload-IsDone bot_token none text = resolve-IsDone s ActionStatus.failed none refl past

    token-IsDone :
        (bot_token : Option String) (action : Action)
        → IsDone s (send_with_token while_sending replies bot_token id action e s).1
    unfolding send_with_token
    token-IsDone none action = resolve-IsDone s ActionStatus.failed none refl past
    token-IsDone (some bot_token) action = payload_read action.payload
      where
        payload_read :
            (payload : Json)
            → IsDone s
                (send_with_token while_sending replies
                  (some bot_token)
                  id
                  (record action { payload = payload })
                  e
                  s).1
        payload_read (object fields) =
            payload-IsDone bot_token (as_text (get fields "chat_id")) (as_text (get fields "text"))
        payload_read _ = IsDone-quietly s s (refl, past)

-- What one delivery does: it is skipped and changes nothing; or its claim is refused, and nothing is
-- posted; or the action was the connector's and READY, at most three requests are posted, and the
-- action is past READY.
pub data Delivery (id : ℕ) (s s' : State) : Type 0 where
  skipped : s' ≡ s → Delivery id s s'
  refused : s'.posts ≡ s.posts → Delivery id s s'
  handled :
      (action : Action) (posted : List Post)
      → action_row id s.db ≡ some action
      → is_claimable action ≡ true
      → s'.posts ≡ s.posts ++ posted
      → length posted ≤ 3
      → IsPast id s'.db
      → Delivery id s s'

module _ (others : Others) (replies : Replies) (bot_token : Option String) (id : ℕ) (e : Env)
    (kind : NeverRevives id others.while_sending) where
  abbrev go : Option Action → M (Unit {0})
  go found = send_claimed others.while_sending replies bot_token id found

  abbrev kept_claim : Action → Env → State → Result (Option Action) × State
  kept_claim running = pure (some running)

  -- The rest of a delivery, by what the claim's transition returned.
  claimed :
      (s : State) (before : Db) (action : Action) (out : Result Action × State)
      → action_row id s.db ≡ some action
      → is_claimable action ≡ true
      → out.1.posts ≡ s.posts
      → ((x : Action) → out.0 ≡ ok x → IsPast id out.1.db)
      → Delivery id s (after (after (settle before out) kept_claim e) go e).1
  unfolding send_claimed
  claimed s before action (err x, s') h ours posts past = refused posts
  claimed s before action (ok x, s') h ours posts past =
      let d = token-IsDone id e others.while_sending kind replies s' (past x refl) bot_token x in
      handled action d.posted h ours (d.sent ∙ ap (λ ps. ps ++ d.posted) posts) d.bounded d.past

  claim_sends :
      (s : State) (found : Option Action)
      → action_row id s.db ≡ found
      → Delivery id s (after (claim others.before_lock found e s) go e).1
  unfolding claim send_claimed transaction
  claim_sends s none h = skipped refl
  claim_sends s (some action) h = elim (Bool-cases (is_claimable action)) [
    | inr other ↦ rw other (skipped refl)
    | inl ours ↦
        let locked : State = record s { db = others.before_lock s.db } in
        let same : action.id ≡ id =
          ground (arith, find_holds (λ (a : Action). a.id == id) s.db.actions action h) in
        rw ours (
          claimed s locked.db action
            (apply_transition action ActionStatus.running actor_id none e locked) h ours
            ((posts-transition action ActionStatus.running actor_id none e s.posts).at locked refl)
            (λ x returned.
              rw (← same)
                (IsPast-after action ActionStatus.running actor_id none e locked x refl returned)))
  ]

module _ (others : Others) (replies : Replies) (bot_token : Option String) (entry : Entry) (e : Env)
    (s : State) (id c : ℕ) (customer : entry.customer_id ≡ some c)
    (names : entry.aggregate_id ≡ some id) where
  -- A delivery is skipped, or refused, or handled, where nothing else makes a past action READY
  -- while its message is sent.
  pub process_entry_delivers :
      NeverRevives id others.while_sending
      → Delivery id s (process_entry others replies bot_token entry e s).1
  unfolding process_entry drive_to_running
  process_entry_delivers kind =
      rw (customer, names)
        (claim_sends others replies bot_token id e kind s (action_row id s.db) refl)

  -- Once the action is past READY, a delivery returns and changes nothing.
  past_skips : IsPast id s.db → process_entry others replies bot_token entry e s ≡ (ok tt, s)
  unfolding process_entry drive_to_running claim send_claimed
  past_skips past =
      rw (customer, names)
        (elim (Option-cases (action_row id s.db)) [
          | inl missing ↦ rw missing refl
          | inr (a, found) ↦
              let late : is_claimable a ≡ false = let p = rw found at past in ground (arith, p) in
              rw (found, late) refl
        ])

-- A stream entry that is delivered twice: if the first delivery has posted anything, the action was
-- this connector's and READY, three requests were posted at most, and the second delivery, whenever
-- it comes and whatever Telegram would answer, returns and changes nothing. Assumed is that no other
-- transaction makes the action READY again, and that the entry's ids are well formed.
pub redelivery_sends_nothing :
    (others again : Others) (meanwhile : Db → Db) (replies replies' : Replies)
    (bot_token : Option String) (entry : Entry) (e : Env) (s : State) (id c : ℕ)
    → entry.customer_id ≡ some c
    → entry.aggregate_id ≡ some id
    → NeverRevives id others.while_sending
    → NeverRevives id meanwhile
    → let s' = (process_entry others replies bot_token entry e s).1 in
      let later = record s' { db = meanwhile s'.db } in
      (s'.posts ≡ s.posts)
      ⊎ (((action : Action) × (action_row id s.db ≡ some action) × (is_claimable action ≡ true))
          × ((posted : List Post) × (s'.posts ≡ s.posts ++ posted) × (length posted ≤ 3))
          × (process_entry again replies' bot_token entry e later ≡ (ok tt, later)))
redelivery_sends_nothing others again meanwhile replies replies' bot_token entry e s id c customer
      names kind kind' =
    elim (process_entry_delivers others replies bot_token entry e s id c customer names kind) [
      | skipped same ↦ inl (ap (λ (t : State). t.posts) same)
      | refused same ↦ inl same
      | handled action posted found ours sent bounded past ↦ inr (
        (action, found, ours),
        (posted, sent, bounded),
        past_skips again replies' bot_token entry e _ id c customer names (kind' _ past),
      )
    ]
