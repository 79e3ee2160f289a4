-- ===== src/Domain/Ai.antt =====
-- backend/src/doda/ai/types.py and the tables of the AI layer: domain/ai_preference,
-- domain/ai_provider_settings and domain/conversation. `PreferenceProvider`, `SettingsProvider` and
-- `UsageProvider` have the values of `Provider`, which stands for all four.
use doda.Base.{ℕ, String, Bool, Option, none, some, List, ◌==◌, str_eq, if◌then◌else◌}

pub data Provider : Type 0 where
  openai gemini claude : Provider

abbrev provider_index : Provider → ℕ
provider_index openai = 0
provider_index gemini = 1
provider_index claude = 2

abbrev pub provider_eq : Provider → Provider → Bool
provider_eq a b = provider_index a == provider_index b

-- `provider.value`
abbrev pub provider_value : Provider → String
provider_value openai = "OPENAI"
provider_value gemini = "GEMINI"
provider_value claude = "CLAUDE"

-- `Provider(text)`, or `none` where that raises a ValueError
abbrev pub parse_provider : String → Option Provider
parse_provider t =
    if str_eq t "OPENAI"
    then some openai
    else if str_eq t "GEMINI"
    then some gemini
    else if str_eq t "CLAUDE"
    then some claude
    else none

pub data ChatMode : Type 0 where
  fast standard deep : ChatMode

pub record UserAiPreference : Type 0 where
  pub customer_id : ℕ
  pub user_id : ℕ
  pub created_at : ℕ
  pub provider : Provider
  pub model : Option String

pub record WorkspaceAiPreference : Type 0 where
  pub workspace_id : ℕ
  pub customer_id : ℕ
  pub provider : Provider
  pub model : Option String

pub record CustomerAiProviderSetting : Type 0 where
  pub customer_id : ℕ
  pub provider : Provider
  pub enabled : Bool

pub record CustomerAiFallbackSetting : Type 0 where
  pub customer_id : ℕ
  pub enabled : Bool

pub record AiProviderVerification : Type 0 where
  pub provider : Provider
  pub last_verified_at : ℕ
  pub last_verified_ok : Bool
  pub last_error : Option String
  pub last_error_type : Option String

pub data MessageRole : Type 0 where
  user assistant tool : MessageRole

pub record Conversation : Type 0 where
  pub id : ℕ
  pub created_at : ℕ
  pub customer_id : ℕ
  pub workspace_id : ℕ
  pub owner_id : String
  pub title : Option String
  pub pinned_provider : Option String
  pub pinned_model : Option String
  pub pinned_language : Option String

pub record Message : Type 0 where
  pub id : ℕ
  pub created_at : ℕ
  pub customer_id : ℕ
  pub conversation_id : ℕ
  pub role : MessageRole
  pub content : String
  pub tool_call_id : Option String
  pub tool_name : Option String
  pub tool_arguments_json : Option String
  pub provider : Option String
  pub model : Option String
  pub finish_reason : Option String

pub record ToolCallRequest : Type 0 where
  pub call_id : String
  pub name : String
  pub arguments_json : String

-- The role is a `ChatRole`, which has the values of `MessageRole`. Without calls, `tool_calls` is
-- the empty list here.
pub record ChatTurn : Type 0 where
  pub role : MessageRole
  pub content : String
  pub tool_call_id : Option String
  pub tool_calls : List ToolCallRequest

pub record GatewayUsage : Type 0 where
  pub input_tokens : ℕ
  pub output_tokens : ℕ
  pub cached_input_tokens : ℕ
