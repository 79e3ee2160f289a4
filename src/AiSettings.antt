-- ===== src/AiSettings.antt =====
-- backend/src/doda/application/ai_provider_settings_service.py, and from backend/src/doda/ai/
-- factory.py whether a provider has a key. What a test call answers is a parameter.
pub mod Fallback
pub mod Order
use doda.Base.{
  ℕ, String, Bool, true, false, not, ◌&&◌, Option, none, some, List, [], ◌∷◌, ◌==◌, is_none,
  if◌then◌else◌,
}
use doda.Base.Table.{find}
use doda.Db.{
  Db, M, Result, Error, ok, err, provider_disabled, ◌>>=◌, ◌>>◌, pure, raise_if, gets, utcnow,
}
use doda.Db.Upsert.{Column, upsert}
use doda.Domain.Ai.{
  Provider, openai, gemini, claude, provider_eq, CustomerAiProviderSetting,
  CustomerAiFallbackSetting, AiProviderVerification,
}

-- The API keys of `doda.config.Settings`.
pub record Keys : Type 0 where
  pub openai_api_key : Option String
  pub gemini_api_key : Option String
  pub claude_api_key : Option String

abbrev pub key_of : Keys → Provider → Option String
key_of settings openai = settings.openai_api_key
key_of settings gemini = settings.gemini_api_key
key_of settings claude = settings.claude_api_key

abbrev pub is_provider_configured : Provider → Keys → Bool
is_provider_configured provider settings = not (is_none (key_of settings provider))

abbrev pub is_provider_setting : ℕ → Provider → CustomerAiProviderSetting → Bool
is_provider_setting customer_id provider s =
    s.customer_id == customer_id && provider_eq s.provider provider

-- `setting is None or setting.enabled`
abbrev pub enabled_by_setting : Option CustomerAiProviderSetting → Bool
enabled_by_setting none = true
enabled_by_setting (some setting) = setting.enabled

abbrev pub provider_enabled : Db → ℕ → Provider → Bool
provider_enabled db customer_id provider =
    enabled_by_setting (find (is_provider_setting customer_id provider) db.provider_settings)

unfoldable pub is_provider_enabled_for_customer : ℕ → Provider → M Bool
is_provider_enabled_for_customer customer_id provider =
    gets (λ db. provider_enabled db customer_id provider)

unfoldable pub assert_provider_enabled : ℕ → Provider → M (Unit {0})
unfolding is_provider_enabled_for_customer
assert_provider_enabled customer_id provider = do
  enabled ← is_provider_enabled_for_customer customer_id provider
  raise_if (not enabled) (provider_disabled provider)

abbrev pub provider_column : Column CustomerAiProviderSetting
provider_column = record {
  rows = λ db. db.provider_settings;
  with_rows = λ rows db. record db { provider_settings = rows };
}

unfoldable pub set_provider_enabled_for_customer :
    (Db → Db) → ℕ → Provider → Bool → M CustomerAiProviderSetting
unfolding upsert
set_provider_enabled_for_customer meanwhile customer_id provider enabled =
    upsert provider_column (is_provider_setting customer_id provider) meanwhile
      (λ setting. record setting { enabled = enabled })
      (record { customer_id = customer_id; provider = provider; enabled = enabled })

abbrev pub is_fallback_setting : ℕ → CustomerAiFallbackSetting → Bool
is_fallback_setting customer_id s = s.customer_id == customer_id

-- `setting is not None and setting.enabled`
abbrev pub fallback_by_setting : Option CustomerAiFallbackSetting → Bool
fallback_by_setting none = false
fallback_by_setting (some setting) = setting.enabled

unfoldable pub is_fallback_enabled_for_customer : ℕ → M Bool
is_fallback_enabled_for_customer customer_id =
    gets λ db. fallback_by_setting (find (is_fallback_setting customer_id) db.fallback_settings)

abbrev fallback_column : Column CustomerAiFallbackSetting
fallback_column = record {
  rows = λ db. db.fallback_settings;
  with_rows = λ rows db. record db { fallback_settings = rows };
}

unfoldable pub set_fallback_enabled_for_customer :
    (Db → Db) → ℕ → Bool → M CustomerAiFallbackSetting
unfolding upsert
set_fallback_enabled_for_customer meanwhile customer_id enabled =
    upsert fallback_column (is_fallback_setting customer_id) meanwhile
      (λ setting. record setting { enabled = enabled })
      (record { customer_id = customer_id; enabled = enabled })

-- `FALLBACK_ORDER`
abbrev pub fallback_order : List Provider
fallback_order = openai ∷ claude ∷ gemini ∷ []

-- The loop of `pick_fallback_provider`: each enabled test is a query.
abbrev pub pick : Keys → ℕ → Provider → Db → List Provider → Option Provider
pick settings customer_id excluding db [] = none
pick settings customer_id excluding db (candidate ∷ rest) =
    let later = pick settings customer_id excluding db rest in
    if provider_eq candidate excluding
    then later
    else if not (is_provider_configured candidate settings)
    then later
    else if provider_enabled db customer_id candidate
    then some candidate
    else later

unfoldable pub pick_fallback_provider : Keys → ℕ → Provider → M (Option Provider)
pick_fallback_provider settings customer_id excluding =
    gets (λ db. pick settings customer_id excluding db fallback_order)

pub record TestResult : Type 0 where
  pub ok : Bool
  pub error_type : Option String
  pub error_message : Option String

-- What draining the stream of the test call ends with: nothing, or the name and the text of a
-- `ModelGatewayError`.
abbrev answer_of : Option (String × String) → TestResult
answer_of none = record { ok = true; error_type = none; error_message = none }
answer_of (some (name, text)) = record {
  ok = false;
  error_type = some name;
  error_message = some text;
}

unfoldable pub test_provider_connection :
    (Provider → Option (String × String)) → Provider → Keys → TestResult
test_provider_connection call provider settings =
    if not (is_provider_configured provider settings)
    then record {
      ok = false;
      error_type = some "ModelNotConfiguredError";
      error_message = some "no API key is configured for this provider";
    }
    else answer_of (call provider)

abbrev pub is_verification : Provider → AiProviderVerification → Bool
is_verification provider v = provider_eq v.provider provider

abbrev verification_column : Column AiProviderVerification
verification_column = record {
  rows = λ db. db.verifications;
  with_rows = λ rows db. record db { verifications = rows };
}

unfoldable pub record_provider_verification :
    (Db → Db) → Provider → TestResult → M AiProviderVerification
unfolding upsert
record_provider_verification meanwhile provider result = do
  now ← utcnow
  upsert verification_column (is_verification provider) meanwhile
      (λ row. record row {
        last_verified_at = now;
        last_verified_ok = result.ok;
        last_error_type = result.error_type;
        last_error = result.error_message;
      })
      (record {
        provider = provider;
        last_verified_at = now;
        last_verified_ok = result.ok;
        last_error_type = result.error_type;
        last_error = result.error_message;
      })

unfoldable pub get_verification_status : Provider → M (Option AiProviderVerification)
get_verification_status provider = gets (λ db. find (is_verification provider) db.verifications)
