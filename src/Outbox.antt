-- ===== src/Outbox.antt =====
-- backend/src/doda/application/outbox_service.py
use doda.Base.{ℕ, suc, String, none, ◌≡◌, refl}
use doda.Base.Table.{insert}
use doda.Json.{Json}
use doda.Env.{Env}
use doda.Db.{State, M, ok, ◌>>=◌, ◌>>◌, pure, modify, utcnow, uuid4}
use doda.Domain.Outbox.{OutboxMessage}

-- The keyword arguments of `enqueue_outbox_message`.
pub record Announcement : Type 0 where
  pub customer_id : ℕ
  pub aggregate_type : String
  pub aggregate_id : ℕ
  pub event_type : String
  pub payload : Json

unfoldable pub enqueue_outbox_message : Announcement → M OutboxMessage
enqueue_outbox_message a = do
  id ← uuid4
  created_at ← utcnow
  let message : OutboxMessage = record {
    id = id;
    created_at = created_at;
    customer_id = a.customer_id;
    aggregate_type = a.aggregate_type;
    aggregate_id = a.aggregate_id;
    event_type = a.event_type;
    payload = a.payload;
    attempts = 0;
    published_at = none;
  }
  modify (λ db. record db { outbox = insert message db.outbox })
  pure message

-- The row that a call adds.
abbrev pub announced : Announcement → Env → State → OutboxMessage
announced a e s = record {
  id = e.uuid4 s.ids;
  created_at = e.clock s.reads;
  customer_id = a.customer_id;
  aggregate_type = a.aggregate_type;
  aggregate_id = a.aggregate_id;
  event_type = a.event_type;
  payload = a.payload;
  attempts = 0;
  published_at = none;
}

-- The state that a call leaves.
abbrev pub enqueued : Announcement → Env → State → State
enqueued a e s = record s {
  db = record s.db { outbox = insert (announced a e s) s.db.outbox };
  reads = suc s.reads;
  ids = suc s.ids;
}

pub enqueue_outbox_message_lem :
    (a : Announcement) (e : Env) (s : State)
    → enqueue_outbox_message a e s ≡ (ok (announced a e s), enqueued a e s)
unfolding enqueue_outbox_message
enqueue_outbox_message_lem a e s = refl
