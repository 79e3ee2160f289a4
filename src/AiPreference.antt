-- ===== src/AiPreference.antt =====
-- backend/src/doda/application/ai_preference_service.py: which provider and model a conversation
-- uses, and the rows that decide it.
pub mod Tiers
use doda.Base.{
  ℕ, String, Bool, ◌&&◌, Option, none, some, List, ◌==◌, str_eq, is_none, not, if◌then◌else◌,
}
use doda.Base.Table.{find, delete}
use doda.Db.{Db, M, value_error, ◌>>=◌, ◌>>◌, pure, gets, some_or_raise, modify, utcnow}
use doda.Db.Upsert.{Column, upsert}
use doda.Domain.Ai.{
  Provider, openai, gemini, claude, parse_provider, UserAiPreference, WorkspaceAiPreference,
  Conversation,
}

-- What the service reads of `doda.config.Settings`.
pub record Models : Type 0 where
  pub ai_default_provider : String
  pub ai_model_openai : String
  pub ai_model_gemini : String
  pub ai_model_claude : String

pub record ResolvedProviderChoice : Type 0 where
  pub provider : Provider
  pub model : String

abbrev pub default_model_for : Models → Provider → String
default_model_for settings openai = settings.ai_model_openai
default_model_for settings gemini = settings.ai_model_gemini
default_model_for settings claude = settings.ai_model_claude

-- `model or default`
abbrev pub or_default : Option String → String → String
or_default none other = other
or_default (some t) other = if str_eq t "" then other else t

abbrev pub choice_of : Models → Option String → Provider → ResolvedProviderChoice
choice_of settings model provider = record {
  provider = provider;
  model = or_default model (default_model_for settings provider);
}

abbrev pub is_user_preference : ℕ → ℕ → UserAiPreference → Bool
is_user_preference customer_id user_id p = p.customer_id == customer_id && p.user_id == user_id

abbrev pub is_workspace_preference : ℕ → WorkspaceAiPreference → Bool
is_workspace_preference workspace_id p = p.workspace_id == workspace_id

unfoldable pub get_user_ai_preference : ℕ → ℕ → M (Option UserAiPreference)
get_user_ai_preference customer_id user_id =
    gets (λ db. find (is_user_preference customer_id user_id) db.user_preferences)

unfoldable pub get_workspace_ai_preference : ℕ → M (Option WorkspaceAiPreference)
get_workspace_ai_preference workspace_id =
    gets (λ db. find (is_workspace_preference workspace_id) db.workspace_preferences)

-- The third and the fourth tier.
unfoldable pub workspace_tier : Models → Option WorkspaceAiPreference → M ResolvedProviderChoice
workspace_tier settings (some pref) = pure (choice_of settings pref.model pref.provider)
workspace_tier settings none = do
  provider ← some_or_raise (parse_provider settings.ai_default_provider) value_error
  pure (choice_of settings none provider)

-- The second tier and below.
unfoldable pub user_tier : Models → ℕ → Option UserAiPreference → M ResolvedProviderChoice
unfolding workspace_tier get_workspace_ai_preference
user_tier settings workspace_id (some pref) = pure (choice_of settings pref.model pref.provider)
user_tier settings workspace_id none = do
  pref ← get_workspace_ai_preference workspace_id
  workspace_tier settings pref

-- All four tiers, by the conversation's pin.
unfoldable pub pinned_tier :
    Models → Option String → Option String → ℕ → ℕ → ℕ → M ResolvedProviderChoice
unfolding user_tier get_user_ai_preference
pinned_tier settings (some pinned) pinned_model customer_id user_id workspace_id = do
  provider ← some_or_raise (parse_provider pinned) value_error
  pure (choice_of settings pinned_model provider)
pinned_tier settings none pinned_model customer_id user_id workspace_id = do
  pref ← get_user_ai_preference customer_id user_id
  user_tier settings workspace_id pref

unfoldable pub resolve_provider_choice :
    Models → Conversation → ℕ → ℕ → ℕ → M ResolvedProviderChoice
unfolding pinned_tier
resolve_provider_choice settings conversation customer_id user_id workspace_id =
    pinned_tier settings conversation.pinned_provider conversation.pinned_model customer_id user_id
      workspace_id

abbrev pub user_column : Column UserAiPreference
user_column = record {
  rows = λ db. db.user_preferences;
  with_rows = λ rows db. record db { user_preferences = rows };
}

abbrev pub workspace_column : Column WorkspaceAiPreference
workspace_column = record {
  rows = λ db. db.workspace_preferences;
  with_rows = λ rows db. record db { workspace_preferences = rows };
}

-- `created_at` is given when the row is flushed, which reads the clock.
unfoldable pub set_user_ai_preference :
    (Db → Db) → ℕ → ℕ → Provider → Option String → M UserAiPreference
unfolding upsert
set_user_ai_preference meanwhile customer_id user_id provider model = do
  created_at ← utcnow
  upsert user_column (is_user_preference customer_id user_id) meanwhile
      (λ pref. record pref { provider = provider; model = model })
      (record {
        customer_id = customer_id;
        user_id = user_id;
        created_at = created_at;
        provider = provider;
        model = model;
      })

unfoldable pub set_workspace_ai_preference :
    (Db → Db) → ℕ → ℕ → Provider → Option String → M WorkspaceAiPreference
unfolding upsert
set_workspace_ai_preference meanwhile workspace_id customer_id provider model =
    upsert workspace_column (is_workspace_preference workspace_id) meanwhile
      (λ pref. record pref { provider = provider; model = model })
      (record {
        workspace_id = workspace_id;
        customer_id = customer_id;
        provider = provider;
        model = model;
      })

unfoldable pub clear_user_ai_preference : ℕ → ℕ → M (Unit {0})
clear_user_ai_preference customer_id user_id = modify λ db. record db {
  user_preferences = delete (is_user_preference customer_id user_id) db.user_preferences;
}

unfoldable pub clear_workspace_ai_preference : ℕ → M (Unit {0})
clear_workspace_ai_preference workspace_id = modify λ db. record db {
  workspace_preferences = delete (is_workspace_preference workspace_id) db.workspace_preferences;
}
