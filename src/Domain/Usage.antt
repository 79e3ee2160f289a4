-- ===== src/Domain/Usage.antt =====
-- backend/src/doda/domain/ai_usage/models.py: the ledger of the monthly budget, and the
-- row of one chat turn.
use doda.Base.{ℕ, String, Option}
use doda.Domain.Ai.{Provider, ChatMode}

pub record AiBudgetLedger : Type 0 where
  pub customer_id : ℕ
  pub year_month : String
  pub reserved_cents : ℕ
  pub actual_cents : ℕ

pub data UsageEventStatus : Type 0 where
  reserved reconciled refunded : UsageEventStatus

pub record AiUsageEvent : Type 0 where
  pub id : ℕ
  pub created_at : ℕ
  pub customer_id : ℕ
  pub workspace_id : ℕ
  pub conversation_id : Option ℕ
  pub trace_id : ℕ
  pub actor_id : String
  pub provider : Provider
  pub mode : ChatMode
  pub model : String
  pub input_tokens : ℕ
  pub output_tokens : ℕ
  pub cached_input_tokens : ℕ
  pub estimated_cost_cents : ℕ
  pub actual_cost_cents : Option ℕ
  pub status : UsageEventStatus
