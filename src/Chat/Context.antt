-- ===== src/Chat/Context.antt =====
-- What a turn takes from outside: the settings, the gateways of backend/src/doda/ai/factory.py, the
-- client that reads the stream, and the functions of Python's libraries. `detect_language` and
-- `detect_likely_secret` match regular expressions, and `estimate_cost_cents` rounds a float.
use doda.Base.{ℕ, String, Bool, Option, List}
use doda.Json.{Json}
use doda.Db.{Db, Error}
use doda.Domain.Ai.{Provider, ToolCallRequest, ChatTurn, GatewayUsage}
use doda.Budget.{Caps}
use doda.AiPreference.{Models}
use doda.AiSettings.{Keys}

pub data GatewayEvent : Type 0 where
  text_delta : String → GatewayEvent
  tool_call_ready : ToolCallRequest → GatewayEvent
  structured_output_ready : Json → GatewayEvent
  completed : GatewayUsage → String → GatewayEvent
  gateway_error_event : Error → GatewayEvent

-- What the iterator of `gateway.stream_chat` gives: its events, then its end or what it raises.
pub data Reply : Type 0 where
  finished : Reply
  failed : Error → Reply
  event : GatewayEvent → Reply → Reply

-- The values of `doda.config.Settings`.
pub record Settings : Type 0 where
  pub models : Models
  pub keys : Keys
  pub caps : Caps
  pub ai_max_output_tokens_fast : ℕ
  pub ai_max_output_tokens_standard : ℕ
  pub ai_max_output_tokens_deep : ℕ
  pub ai_max_tool_rounds : ℕ
  pub ai_max_context_chars : ℕ
  -- `round(settings.ai_deep_request_cost_ceiling_usd * 100)`
  pub ceiling_cents : ℕ

pub record World : Type 0 where
  pub settings : Settings
  -- The n-th call of a gateway in this turn: provider, model, instructions, history, most tokens.
  pub replies : ℕ → Provider → String → String → List ChatTurn → ℕ → Reply
  -- Whether the client has gone when the n-th chunk is handed to it.
  pub gone : ℕ → Bool
  pub detect_language : String → Option String
  pub detect_likely_secret : String → Option String
  -- `none` where the model has no price
  pub estimate_cost_cents : Provider → String → ℕ → ℕ → Option ℕ
  -- The `limit` that `ListMyOpenTasksArgs` reads, and whether `TelegramSendMessageArgs` accepts
  pub list_tasks_arguments : String → Option ℕ
  pub telegram_arguments : String → Bool
  pub json_loads : String → Json
  pub json_dumps : Json → String
  pub str_error : Error → String
  -- What other transactions commit before this one locks the ledger
  pub meanwhile : Db → Db
