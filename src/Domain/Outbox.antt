-- ===== src/Domain/Outbox.antt =====
-- backend/src/doda/domain/outbox/models.py
use doda.Base.{ℕ, String, Option}
use doda.Json.{Json}

pub record OutboxMessage : Type 0 where
  pub id : ℕ
  pub created_at : ℕ
  pub customer_id : ℕ
  pub aggregate_type : String
  pub aggregate_id : ℕ
  pub event_type : String
  pub payload : Json
  pub attempts : ℕ
  pub published_at : Option ℕ
