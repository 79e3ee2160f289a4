-- ===== src/Relay/Delivery.antt =====
-- A batch is delivered and marked, or nothing is marked: delivery at least once.
use doda.Base.{
  ℕ, suc, Bool, true, false, ◌||◌, List, [], ◌∷◌, ◌++◌, append-nil, append_assoc, ◌≡◌, ◌⊎◌, refl,
  sym, ◌∙◌, arith, ◌==◌, ==_refl, is_none, inl, inr, Bool-cases,
}
use doda.Base.Table.{length, update, insert, All}
use doda.Base.Table.Laws.{All-update, All-map}
use doda.Env.{Env}
use doda.Db.{State, ok, err, transaction, transport_error}
use doda.Domain.Outbox.{OutboxMessage}
use doda.Relay.{published, publish_each, pending_batch, relay_batch, relay_once}

-- The id is that of a message of the list.
abbrev pub among : ℕ → List OutboxMessage → Bool
among id [] = false
among id (m ∷ ms) = id == m.id || among id ms

-- Every row whose id passes the test is published.
abbrev pub ArePublished : (ℕ → Bool) → List OutboxMessage → Type 0
ArePublished done rows =
    All (λ (m : OutboxMessage). done m.id ≡ true → is_none m.published_at ≡ false) rows

mark_one :
    (done : ℕ → Bool) (id now : ℕ) (rows : List OutboxMessage)
    → ArePublished done rows
    → ArePublished (λ i. done i || i == id) (update (λ m. m.id == id) (published now) rows)
mark_one done id now rows h =
    All-update (λ (m : OutboxMessage). done m.id ≡ true → is_none m.published_at ≡ false)
      (λ (m : OutboxMessage). (done m.id || m.id == id) ≡ true → is_none m.published_at ≡ false)
      (λ m. m.id == id) (published now) rows
      (λ m was. elim (Bool-cases (m.id == id)) [
        | inl hit ↦ rw hit (λ _. refl)
        | inr miss ↦ rw miss (λ now_done. was (ground (arith, miss, now_done)))
      ])
      h

among_tail :
    (id : ℕ) (m : OutboxMessage) (ms : List OutboxMessage)
    → among id ms ≡ true
    → among id (m ∷ ms) ≡ true
among_tail id m ms h = elim (Bool-cases (id == m.id)) [ inl y ↦ rw y refl | inr n ↦ rw n h ]

-- What a batch does: everything is sent, in order, counted and marked; or the call raises.
publish_each_lem :
    (accepts : OutboxMessage → Bool) (ms : List OutboxMessage) (done : ℕ → Bool) (e : Env)
    (s : State)
    → ArePublished done s.db.outbox
    → ((s' : State) × (publish_each accepts ms e s ≡ (ok (length ms), s'))
        × (s'.sent ≡ s.sent ++ ms)
        × ArePublished (λ i. done i || among i ms) s'.db.outbox)
      ⊎ ((s' : State) × (publish_each accepts ms e s ≡ (err transport_error, s'))
          × ((m : OutboxMessage) × (among m.id ms ≡ true) × (accepts m ≡ false)))
unfolding publish_each
publish_each_lem accepts [] done e s h = inl (
  s,
  refl,
  sym (append-nil s.sent),
  All-map (λ (m : OutboxMessage). done m.id ≡ true → is_none m.published_at ≡ false)
      (λ (m : OutboxMessage). (done m.id || false) ≡ true → is_none m.published_at ≡ false)
      s.db.outbox (λ m f d. f (ground (arith, d))) h,
)
publish_each_lem accepts (m ∷ ms) done e s h = elim (Bool-cases (accepts m)) [
  | inr refused ↦ inr (s, rw refused refl, (m, rw (==_refl m.id) refl, refused))
  | inl fine ↦
      let marked : State = record s {
        db = record s.db {
          outbox = update (λ x. x.id == m.id) (published (e.clock s.reads)) s.db.outbox;
        };
        reads = suc s.reads;
        sent = insert m s.sent;
      } in
      let marks = mark_one done m.id (e.clock s.reads) s.db.outbox h in
      elim (publish_each_lem accepts ms (λ i. done i || i == m.id) e marked marks) [
        | inl (s', returns, sends, rows) ↦ inl (
          s',
          rw fine (rw returns refl),
          sends ∙ append_assoc s.sent (m ∷ []) ms,
          All-map
              (λ (x : OutboxMessage).
                ((done x.id || x.id == m.id) || among x.id ms) ≡ true
                → is_none x.published_at ≡ false)
              (λ (x : OutboxMessage).
                (done x.id || among x.id (m ∷ ms)) ≡ true → is_none x.published_at ≡ false)
              s'.db.outbox (λ x f d. f (ground (arith, d))) rows,
        )
        | inr (s', raises, (x, in_ms, refused)) ↦
            inr (s', rw fine (rw raises refl), (x, among_tail x.id m ms in_ms, refused))
      ]
]

none_yet : (rows : List OutboxMessage) → ArePublished (λ i. false) rows
none_yet [] = tt
none_yet (m ∷ rows) = ((λ no. cc), none_yet rows)

-- One poll of the relay either returns: it has sent the batch's messages, in order,
-- returns their number, and has marked every row of the batch as published; or it raises, since the
-- stream refused a message of the batch: then it has marked nothing, whatever was sent before that,
-- so that the next poll sends those messages again.
pub relay_once_decides :
    (accepts locked : OutboxMessage → Bool) (batch_size : ℕ) (e : Env) (s : State)
    → let batch = pending_batch locked batch_size s.db in
      let (r, s') = relay_once accepts locked batch_size e s in
      ((r ≡ ok (length batch))
        × (s'.sent ≡ s.sent ++ batch)
        × ArePublished (λ i. among i batch) s'.db.outbox)
      ⊎ ((r ≡ err transport_error)
          × (s'.db ≡ s.db)
          × ((m : OutboxMessage) × (among m.id batch ≡ true) × (accepts m ≡ false)))
unfolding relay_once relay_batch transaction
relay_once_decides accepts locked batch_size e s =
    elim (publish_each_lem accepts (pending_batch locked batch_size s.db) (λ i. false) e s
      (none_yet s.db.outbox)) [
        | inl (s', returns, sends, rows) ↦ inl (rw returns refl, rw returns sends, rw returns rows)
        | inr (s', raises, (m, in_batch, refused)) ↦
            inr (rw raises refl, rw raises refl, (m, in_batch, refused))
      ]
