-- ===== src/Relay.antt =====
-- backend/src/doda/infrastructure/outbox_relay.py: `relay_once`.
pub mod Delivery
use doda.Base.{
  ℕ, suc, ◌+◌, String, Bool, true, false, not, ◌&&◌, none, some, List, [], ◌∷◌, ltb, ◌==◌, is_none,
  if◌then◌else◌,
}
use doda.Base.Table.{select, update, insert, order_by, take}
use doda.Db.{
  Db, State, M, transport_error, ok, err, transaction, ◌>>=◌, ◌>>◌, pure, gets, modify, utcnow,
}
use doda.Domain.Outbox.{OutboxMessage}

-- `redis.xadd`: the stream takes the message, or the call raises. `accepts` says which.
abbrev pub xadd : (OutboxMessage → Bool) → OutboxMessage → M (Unit {0})
xadd accepts message e s =
    if accepts message
    then (ok tt, record s { sent = insert message s.sent })
    else (err transport_error, s)

abbrev pub published : ℕ → OutboxMessage → OutboxMessage
published now m = record m { published_at = some now; attempts = m.attempts + 1 }

-- The loop, which counts what it publishes.
unfoldable pub publish_each : (OutboxMessage → Bool) → List OutboxMessage → M ℕ
publish_each accepts [] = pure 0
publish_each accepts (message ∷ messages) = do
  xadd accepts message
  now ← utcnow
  modify (λ db. record db { outbox = update (λ m. m.id == message.id) (published now) db.outbox })
  count ← publish_each accepts messages
  pure (suc count)

-- `ORDER BY created_at`
abbrev earlier : OutboxMessage → OutboxMessage → Bool
earlier x y = ltb x.created_at y.created_at

-- The rows of a batch. `locked` says which rows another worker holds, and SKIP LOCKED leaves out.
abbrev pub pending_batch : (OutboxMessage → Bool) → ℕ → Db → List OutboxMessage
pending_batch locked batch_size db =
    take batch_size
      (order_by earlier (select (λ m. is_none m.published_at && not (locked m)) db.outbox))

relay_batch : (OutboxMessage → Bool) → (OutboxMessage → Bool) → ℕ → M ℕ
unfolding publish_each
relay_batch accepts locked batch_size = do
  messages ← gets (pending_batch locked batch_size)
  publish_each accepts messages

unfoldable pub relay_once : (OutboxMessage → Bool) → (OutboxMessage → Bool) → ℕ → M ℕ
unfolding relay_batch
relay_once accepts locked batch_size = transaction (relay_batch accepts locked batch_size)
