-- ===== src/TelegramRelay/Retries.antt =====
-- How often a message is posted, and after which replies.
use doda.Base.{
  ℕ, zero, suc, ◌+◌, ◌≤◌, ◌<◌, Bool, true, false, not, ◌||◌, none, some, List, [], ◌∷◌, ◌++◌,
  append-nil, append_assoc, ◌≡◌, ◌≢◌, Option-cases, String, refl, sym, ap, arith, ◌==◌, Bool-cases,
  inl, inr,
}
use doda.Base.Table.{length, insert}
use doda.Json.{Json, object, get}
use doda.Wire.{Post}
use doda.Env.{Env}
use doda.Db.{State, M, after, Result, ok, err, telegram_transient_error}
use doda.Telegram.{
  Reply, connect_error, connect_timeout, pool_timeout, http_error, response, Replies, read_reply,
  read_body, item_of, send_message, is_success, is_falsy,
}
use doda.TelegramRelay.{send_rounds, next_round, send_with_retries}

-- The failure happened before Telegram could have queued the message.
abbrev pub is_transient : Reply → Bool
is_transient connect_error = true
is_transient connect_timeout = true
is_transient pool_timeout = true
is_transient http_error = false
is_transient (response status_code body) = status_code == 429

-- What a reader of a reply does: it changes nothing, and it raises no transient error.
abbrev Reads : Result Json × State → State → Type 0
Reads out s = (out.1 ≡ s) × (out.0 ≢ err telegram_transient_error)

Reads-item_of :
    (value : Json) (name : String) (e : Env) (s : State) → Reads (item_of value name e s) s
Reads-item_of (object fields) name e s = elim (Option-cases (get fields name)) [
  | inl missing ↦ rw missing (refl, λ h. cc)
  | inr (v, found) ↦ rw found (refl, λ h. cc)
]
Reads-item_of _ name e s = (refl, λ h. cc)

Reads-after :
    (out : Result Json × State) (f : Json → M Json) (e : Env) (s : State)
    → Reads out s
    → ((v : Json) → Reads (f v e s) s)
    → Reads (after out f e) s
Reads-after (ok v, s') f e s (same, fine) h = rw same (h v)
Reads-after (err x, s') f e s (same, fine) h = (same, λ bad. ground (arith, fine, bad))

Reads-body :
    (status : ℕ) (value : Json) (e : Env) (s : State) → Reads (read_body status value e s) s
unfolding read_body
Reads-body status (object fields) e s =
    elim (Bool-cases (not (is_success status) || is_falsy (get fields "ok"))) [
      | inl rejected ↦ rw rejected (refl, λ h. cc)
      | inr fine ↦ rw fine (
          Reads-after (item_of (object fields) "result" e s) (λ v. item_of v "message_id") e s
            (Reads-item_of (object fields) "result" e s) (λ v. Reads-item_of v "message_id" e s))
    ]
Reads-body status _ e s = (refl, λ h. cc)

-- A reply is read without a change of the state, and only a transient failure is raised as one.
read_reply_reads :
    (reply : Reply) (e : Env) (s : State)
    → ((read_reply reply e s).1 ≡ s)
      × ((read_reply reply e s).0 ≡ err telegram_transient_error → is_transient reply ≡ true)
unfolding read_reply
read_reply_reads connect_error e s = (refl, λ h. refl)
read_reply_reads connect_timeout e s = (refl, λ h. refl)
read_reply_reads pool_timeout e s = (refl, λ h. refl)
read_reply_reads http_error e s = (refl, λ h. cc)
read_reply_reads (response status none) e s = elim (Bool-cases (status == 429)) [
  | inl limited ↦ rw limited (refl, λ h. refl)
  | inr other ↦ rw other (refl, λ h. cc)
]
read_reply_reads (response status (some value)) e s = elim (Bool-cases (status == 429)) [
  | inl limited ↦ rw limited (refl, λ h. refl)
  | inr other ↦
      let (same, fine) = Reads-body status value e s in rw other (same, λ h. absurd (fine h))
]

-- The state with one more request posted.
abbrev pub posted : Post → State → State
posted p s = record s { posts = insert p s.posts }

abbrev pub replicate : ℕ → Post → List Post
replicate zero p = []
replicate (suc n) p = p ∷ replicate n p

length-insert : (p : Post) (ps : List Post) → length (ps ++ p ∷ []) ≡ suc (length ps)
length-insert p [] = refl
length-insert p (q ∷ ps) = ap suc (length-insert p ps)

-- What the rounds of the loop leave: they have posted the message some times, at most once for each
-- round and at least once, and changed nothing else; every reply but the last was a transient failure.
pub record IsSending (n : ℕ) (replies : Replies) (p : Post) (s s' : State) : Type 0 where
  pub times : ℕ
  pub bounded : times ≤ n
  pub started : 0 < n → 0 < times
  pub sent : s' ≡ record s { posts = s.posts ++ replicate times p }
  pub transient : (j : ℕ) → suc j < times → is_transient (replies (length s.posts + j)) ≡ true

module _ (replies : Replies) (p : Post) (e : Env) where
  -- A round that ends the loop.
  last_round : (n : ℕ) (s : State) → IsSending (suc n) replies p s (posted p s)
  last_round n s = record {
    times = 1;
    bounded = omega arith;
    started = λ h. omega arith;
    sent = refl;
    transient = λ j h. absurd (omega arith);
  }

  first_round :
      (n : ℕ) (s s' : State)
      → is_transient (replies (length s.posts)) ≡ true
      → IsSending n replies p (posted p s) s'
      → IsSending (suc n) replies p s s'
  first_round n s s' first h = record {
    times = suc h.times;
    bounded = omega (arith, h.bounded);
    started = λ h. omega arith;
    sent = rw (← append_assoc s.posts (p ∷ []) (replicate h.times p)) h.sent;
    transient = λ j below. shifted j below;
  }
    where
      shifted : (j : ℕ) → suc j < suc h.times → is_transient (replies (length s.posts + j)) ≡ true
      shifted zero below =
          let same : length s.posts + 0 ≡ length s.posts = omega arith in rw same first
      shifted (suc j) below =
          let same : length s.posts + suc j ≡ length (insert p s.posts) + j =
            omega (arith, length-insert p s.posts) in
          rw same (h.transient j (omega arith))

  end_round :
      (n : ℕ) (s : State) (r : Result Json)
      → (r ≡ err telegram_transient_error → is_transient (replies (length s.posts)) ≡ true)
      → IsSending n replies p (posted p s) (send_rounds n replies p e (posted p s)).1
      → IsSending (suc n) replies p s (next_round (send_rounds n replies p) r e (posted p s)).1
  unfolding next_round
  end_round n s (ok v) h ih = last_round n s
  end_round n s (err telegram_transient_error) h ih = first_round n s _ (h refl) ih
  end_round n s (err x) h ih = last_round n s

  send_rounds-IsSending :
      (n : ℕ) (s : State) → IsSending n replies p s (send_rounds n replies p e s).1
  unfolding send_rounds send_message
  send_rounds-IsSending zero s = record {
    times = 0;
    bounded = omega arith;
    started = λ h. h;
    sent = ap (λ (ps : List Post). record s { posts = ps }) (sym (append-nil s.posts));
    transient = λ j h. absurd (omega arith);
  }
  send_rounds-IsSending (suc n) s =
      let (same, fine) = read_reply_reads (replies (length s.posts)) e (posted p s) in
      rw same (end_round n s _ fine (send_rounds-IsSending n (posted p s)))

  -- Sending posts the message three times at most, whatever Telegram answers, and writes nothing
  -- to the database; it posts again only after a failure that is known to come before Telegram
  -- could have queued the message, so never after an ambiguous one.
  pub send_with_retries_bounded :
      (s : State) → IsSending 3 replies p s (send_with_retries replies p e s).1
  unfolding send_with_retries
  send_with_retries_bounded s = send_rounds-IsSending 3 s

pub length-replicate : (n : ℕ) (p : Post) → length (replicate n p) ≡ n
length-replicate zero p = refl
length-replicate (suc n) p = ap suc (length-replicate n p)
