-- ===== src/AiSettings/Order.antt =====
-- Which provider a chat falls back to.
use doda.Base.{
  ℕ, String, ◌<◌, ◌≡◌, ◌≢◌, ◌⊎◌, refl, inl, inr, true, false, ◌&&◌, Option, none, some, arith, ◌==◌,
  Bool-cases, Option-cases,
}
use doda.Base.Table.{find}
use doda.Env.{Env}
use doda.Db.{Db, State, ok}
use doda.Domain.Ai.{Provider, openai, gemini, claude, provider_eq, CustomerAiProviderSetting}
use doda.AiSettings.{Keys, is_provider_configured, provider_enabled, pick_fallback_provider}
use doda.AiSettings.Fallback.{eligible, pick_fallback_provider_lem}

-- The settings hold an API key of the provider.
pub data HasKey (settings : Keys) : Provider → Type 0 where
  of_openai : (key : String) → settings.openai_api_key ≡ some key → HasKey settings openai
  of_gemini : (key : String) → settings.gemini_api_key ≡ some key → HasKey settings gemini
  of_claude : (key : String) → settings.claude_api_key ≡ some key → HasKey settings claude

-- A provider that may stand in for the one that failed: another one, that has a key, and that no
-- setting of the customer switches off.
pub record IsEligible (settings : Keys) (customer_id : ℕ) (excluding : Provider) (db : Db)
    (p : Provider) : Type 0 where
  pub differs : p ≢ excluding
  pub keyed : HasKey settings p
  pub not_off : ¬ (
      (r : CustomerAiProviderSetting) × (find
          (λ x. x.customer_id == customer_id && provider_eq x.provider p)
          db.provider_settings
        ≡ some r)
      × (r.enabled ≡ false))

-- The place of a provider in the order of the fallbacks.
abbrev pub rank : Provider → ℕ
rank openai = 0
rank claude = 1
rank gemini = 2

has_key :
    (settings : Keys) (p : Provider) → is_provider_configured p settings ≡ true → HasKey settings p
has_key settings openai h = elim (Option-cases settings.openai_api_key) [
  | inl missing ↦ let no' = rw missing at h in cc
  | inr (key, known) ↦ of_openai key known
]
has_key settings gemini h = elim (Option-cases settings.gemini_api_key) [
  | inl missing ↦ let no' = rw missing at h in cc
  | inr (key, known) ↦ of_gemini key known
]
has_key settings claude h = elim (Option-cases settings.claude_api_key) [
  | inl missing ↦ let no' = rw missing at h in cc
  | inr (key, known) ↦ of_claude key known
]

is_keyed :
    (settings : Keys) (p : Provider) → HasKey settings p → is_provider_configured p settings ≡ true
is_keyed settings _ (of_openai key known) = rw known refl
is_keyed settings _ (of_gemini key known) = rw known refl
is_keyed settings _ (of_claude key known) = rw known refl

eq_provider : (a b : Provider) → (provider_eq a b ≡ true) → a ≡ b
eq_provider openai openai h = refl
eq_provider openai gemini h = cc
eq_provider openai claude h = cc
eq_provider gemini openai h = cc
eq_provider gemini gemini h = refl
eq_provider gemini claude h = cc
eq_provider claude openai h = cc
eq_provider claude gemini h = cc
eq_provider claude claude h = refl

provider_eq_self : (p : Provider) → provider_eq p p ≡ true
provider_eq_self openai = refl
provider_eq_self gemini = refl
provider_eq_self claude = refl

module _ (settings : Keys) (customer_id : ℕ) (excluding : Provider) (db : Db) where
  abbrev setting_of : Provider → Option CustomerAiProviderSetting
  setting_of p =
      find (λ x. x.customer_id == customer_id && provider_eq x.provider p) db.provider_settings

  switched_on :
      (p : Provider)
      → provider_enabled db customer_id p ≡ true
      → ¬ ((r : CustomerAiProviderSetting) × (setting_of p ≡ some r) × (r.enabled ≡ false))
  switched_on p on (r, stored, off) = let no' = rw (stored, off) at on in cc

  on_of :
      (p : Provider)
      → ¬ ((r : CustomerAiProviderSetting) × (setting_of p ≡ some r) × (r.enabled ≡ false))
      → provider_enabled db customer_id p ≡ true
  on_of p not_off = elim (Option-cases (setting_of p)) [
    | inl missing ↦ rw missing refl
    | inr (r, stored) ↦ elim (Bool-cases r.enabled) [
      | inl on ↦ rw (stored, on) refl
      | inr off ↦ absurd (not_off (r, stored, off))
    ]
  ]

  eligible-IsEligible :
      (p : Provider)
      → eligible settings customer_id excluding db p ≡ true
      → IsEligible settings customer_id excluding db p
  eligible-IsEligible p h = record {
    differs = λ same.
        let self : provider_eq p excluding ≡ true = rw (← same) (provider_eq_self p) in
        ground (arith, h, self);
    keyed = has_key settings p (ground (arith, h));
    not_off = switched_on p (ground (arith, h));
  }

  not_eligible :
      (p : Provider)
      → eligible settings customer_id excluding db p ≡ false
      → ¬ IsEligible settings customer_id excluding db p
  not_eligible p h is =
      let keyed = is_keyed settings p is.keyed in
      let on = on_of p is.not_off in
      elim (Bool-cases (provider_eq p excluding)) [
        | inl same ↦ is.differs (eq_provider p excluding same)
        | inr other ↦ ground (arith, h, keyed, on, other)
      ]

module _ (settings : Keys) (customer_id : ℕ) (excluding : Provider) (e : Env) (s : State) where
  abbrev Fits : Provider → Type 0
  Fits = IsEligible settings customer_id excluding s.db

  before_openai : ¬ ((q : Provider) × (rank q < rank openai) × Fits q)
  before_openai (q, sooner, fits) = omega (arith, sooner)

  before_claude : ¬ Fits openai → ¬ ((q : Provider) × (rank q < rank claude) × Fits q)
  before_claude first (openai, sooner, fits) = first fits
  before_claude first (claude, sooner, fits) = omega (arith, sooner)
  before_claude first (gemini, sooner, fits) = omega (arith, sooner)

  before_gemini :
      ¬ Fits openai → ¬ Fits claude → ¬ ((q : Provider) × (rank q < rank gemini) × Fits q)
  before_gemini first second (openai, sooner, fits) = first fits
  before_gemini first second (claude, sooner, fits) = second fits
  before_gemini first second (gemini, sooner, fits) = omega (arith, sooner)

  nobody : ¬ Fits openai → ¬ Fits claude → ¬ Fits gemini → ¬ ((q : Provider) × Fits q)
  nobody first second third (openai, fits) = first fits
  nobody first second third (claude, fits) = second fits
  nobody first second third (gemini, fits) = third fits

  -- The search for a fallback changes nothing. It returns an eligible provider, one that is not the
  -- one that failed, has a key and is not switched off for the customer, such that no provider
  -- before it in the order OPENAI, CLAUDE, GEMINI is eligible; or it returns none, and no provider
  -- is eligible.
  pub pick_fallback_is_first :
      let (r, s') = pick_fallback_provider settings customer_id excluding e s in
      (s' ≡ s)
      × (((p : Provider) × (r ≡ ok (some p))
            × IsEligible settings customer_id excluding s.db p
            × (¬ (
                (q : Provider) × (rank q < rank p)
                × IsEligible settings customer_id excluding s.db q)))
          ⊎ ((r ≡ ok none)
              × (¬ ((q : Provider) × IsEligible settings customer_id excluding s.db q))))
  pick_fallback_is_first =
      let is = eligible-IsEligible settings customer_id excluding s.db in
      let is_not = not_eligible settings customer_id excluding s.db in
      rw (pick_fallback_provider_lem settings customer_id excluding e s) (
        refl,
        (elim (Bool-cases (eligible settings customer_id excluding s.db openai)) [
          | inl first ↦ inl (openai, rw first refl, is openai first, before_openai)
          | inr no_first ↦ elim (Bool-cases (eligible settings customer_id excluding s.db claude)) [
            | inl second ↦ inl (
              claude,
              rw (no_first, second) refl,
              is claude second,
              before_claude (is_not openai no_first),
            )
            | inr no_second ↦
                elim (Bool-cases (eligible settings customer_id excluding s.db gemini)) [
                  | inl third ↦ inl (
                    gemini,
                    rw (no_first, no_second, third) refl,
                    is gemini third,
                    before_gemini (is_not openai no_first) (is_not claude no_second),
                  )
                  | inr no_third ↦ inr (
                    rw (no_first, no_second, no_third) refl,
                    nobody (is_not openai no_first) (is_not claude no_second)
                        (is_not gemini no_third),
                  )
                ]
          ]
        ]),
      )
