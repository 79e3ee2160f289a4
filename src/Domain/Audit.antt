-- ===== src/Domain/Audit.antt =====
-- backend/src/doda/domain/audit/models.py
use doda.Base.{ℕ, String, Option}
use doda.Json.{Json}

pub record AuditEvent : Type 0 where
  pub id : ℕ
  pub created_at : ℕ
  pub customer_id : ℕ
  pub workspace_id : Option ℕ
  pub trace_id : ℕ
  pub actor_id : String
  pub event_type : String
  pub occurred_at : ℕ
  pub safe_metadata : Json
  pub prev_hash : Option String
  pub hash : String

pub record AuditChainTip : Type 0 where
  pub customer_id : ℕ
  pub tip_hash : Option String
