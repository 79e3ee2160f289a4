-- ===== src/AiSettings/Fallback.antt =====
-- What a disabled provider is refused: the chats that ask for it, and those that fall back.
use doda.Base.{
  ℕ, ◌≡◌, ◌≢◌, ◌⊎◌, refl, inl, inr, Bool, true, false, ◌&&◌, not, Option, none, some, List, [], ◌∷◌,
  arith, ap,
}
use doda.Base.Table.{find}
use doda.Base.Table.Laws.{find_holds}
use doda.Env.{Env}
use doda.Db.{Db, State, Result, ok, err, provider_disabled}
use doda.Db.Upsert.Laws.{upsert_stores}
use doda.Domain.Ai.{Provider, openai, gemini, claude, provider_eq, CustomerAiProviderSetting}
use doda.AiSettings.{
  Keys, is_provider_configured, provider_enabled, pick, fallback_order, pick_fallback_provider,
  assert_provider_enabled, is_provider_enabled_for_customer, set_provider_enabled_for_customer,
  is_provider_setting, provider_column,
}

-- A provider that may stand in for the one that failed.
abbrev pub eligible : Keys → ℕ → Provider → Db → Provider → Bool
eligible settings customer_id excluding db p =
    not (provider_eq p excluding)
    && is_provider_configured p settings
    && provider_enabled db customer_id p

-- The fallback is the first eligible provider in the order, and there is none exactly where no
-- provider is eligible.
pick_first :
    (settings : Keys) (customer_id : ℕ) (excluding : Provider) (db : Db) (order : List Provider)
    → pick settings customer_id excluding db order
      ≡ find (eligible settings customer_id excluding db) order
pick_first settings customer_id excluding db [] = refl
pick_first settings customer_id excluding db (p ∷ rest) =
    ground (arith, pick_first settings customer_id excluding db rest)

pub pick_fallback_provider_lem :
    (settings : Keys) (customer_id : ℕ) (excluding : Provider) (e : Env) (s : State)
    → pick_fallback_provider settings customer_id excluding e s
      ≡ (ok (find (eligible settings customer_id excluding s.db) fallback_order), s)
unfolding pick_fallback_provider
pick_fallback_provider_lem settings customer_id excluding e s =
    rw (pick_first settings customer_id excluding s.db fallback_order) refl

abbrev disabled : CustomerAiProviderSetting → CustomerAiProviderSetting
disabled setting = record setting { enabled = false }

provider_eq_refl : (p : Provider) → provider_eq p p ≡ true
provider_eq_refl openai = refl
provider_eq_refl gemini = refl
provider_eq_refl claude = refl

picked_of : Result (Option Provider) → Option Provider
picked_of (ok p) = p
picked_of (err x) = none

refused_where_off :
    (settings : Keys) (customer_id : ℕ) (provider excluding : Provider) (e : Env) (s : State)
    (row : CustomerAiProviderSetting)
    → find (is_provider_setting customer_id provider) s.db.provider_settings ≡ some row
    → row.enabled ≡ false
    → ((assert_provider_enabled customer_id provider e s).0 ≡ err (provider_disabled provider))
      × ((pick_fallback_provider settings customer_id excluding e s).0 ≢ ok (some provider))
unfolding assert_provider_enabled is_provider_enabled_for_customer picked_of
refused_where_off settings customer_id provider excluding e s row stored off = (
  rw (stored, off) refl,
  λ picked.
      let all = pick_fallback_provider_lem settings customer_id excluding e s in
      let found : find (eligible settings customer_id excluding s.db) fallback_order
          ≡ some provider =
        ap picked_of (rw all at picked) in
      let holds =
        find_holds (eligible settings customer_id excluding s.db) fallback_order provider found in
      let off' : provider_enabled s.db customer_id provider ≡ false = rw (stored, off) refl in
      ground arith,
)

-- After a customer's provider is disabled, a chat that asks for it is refused and it is not the
-- fallback, also where another transaction saved a setting at the same time.
pub disabled_is_refused :
    (meanwhile : Db → Db) (settings : Keys) (customer_id : ℕ) (provider excluding : Provider)
    (e : Env) (s : State)
    → let s' = (set_provider_enabled_for_customer meanwhile customer_id provider false e s).1 in
      ((assert_provider_enabled customer_id provider e s').0 ≡ err (provider_disabled provider))
      × ((pick_fallback_provider settings customer_id excluding e s').0 ≢ ok (some provider))
unfolding set_provider_enabled_for_customer assert_provider_enabled is_provider_enabled_for_customer
disabled_is_refused meanwhile settings customer_id provider excluding e s =
    let written =
      upsert_stores provider_column (is_provider_setting customer_id provider) (λ rows db. refl)
        meanwhile disabled
        (record { customer_id = customer_id; provider = provider; enabled = false }) (λ a h. h)
        (rw (provider_eq_refl provider) (ground arith)) e s in
    rw written.runs (
      refused_where_off settings customer_id provider excluding e (record s { db = written.db })
        written.row written.stored (is_off written.value))
  where
    is_off :
        {row : CustomerAiProviderSetting}
        → (row ≡ record { customer_id = customer_id; provider = provider; enabled = false })
          ⊎ ((a : CustomerAiProviderSetting) × (row ≡ disabled a))
        → row.enabled ≡ false
    is_off (inl fresh) = ap (λ r. r.enabled) fresh
    is_off (inr (a, changed)) = ap (λ r. r.enabled) changed
