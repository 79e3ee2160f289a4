-- ===== src/Domain/Action/Policy/Floor.antt =====
-- The risk floor of a tool.
use doda.Base.{
  String, false, none, some, ◌≡◌, ◌⊎◌, ◌≤◌, refl, arith, leb, inl, inr, Bool-cases, Option-cases,
}
use doda.Domain.Action.{RiskLevel, auto_approved}
use doda.Domain.Action.Policy.{risk_order, tool_minimum_risk_level, enforce_minimum_risk_level}

-- The level that the policy sets is not below the requested one, nor below the tool's minimum, and
-- is no higher than it must be: it is the requested level or the minimum.
pub enforce_least :
    (tool_name : String) (requested : RiskLevel)
    → let level = enforce_minimum_risk_level tool_name requested in
      (risk_order requested ≤ risk_order level)
      × (((tool_minimum_risk_level tool_name ≡ none) × (level ≡ requested))
          ⊎ ((minimum : RiskLevel) × (tool_minimum_risk_level tool_name ≡ some minimum)
              × (risk_order minimum ≤ risk_order level)
              × ((level ≡ requested) ⊎ (level ≡ minimum))))
unfolding enforce_minimum_risk_level
enforce_least tool_name requested = elim (Option-cases (tool_minimum_risk_level tool_name)) [
  | inl free ↦ rw (free, enforce_minimum_risk_level) (omega arith, inl (refl, refl))
  | inr (minimum, bound) ↦ elim (Bool-cases (leb (risk_order minimum) (risk_order requested))) [
    | inl enough ↦
        rw (bound, enough, enforce_minimum_risk_level)
          (omega arith, inr (minimum, refl, ground arith, inl refl))
    | inr low ↦
        rw (bound, low, enforce_minimum_risk_level)
          (ground arith, inr (minimum, refl, omega arith, inr refl))
  ]
]

-- No proposal makes a Telegram message exempt from approval, whatever risk level it asks for.
pub telegram_needs_approval :
    (requested : RiskLevel)
    → auto_approved (enforce_minimum_risk_level "telegram.send_message" requested) ≡ false
unfolding enforce_minimum_risk_level tool_minimum_risk_level risk_order
telegram_needs_approval RiskLevel.r0 = refl
telegram_needs_approval RiskLevel.r1 = refl
telegram_needs_approval RiskLevel.r2 = refl
telegram_needs_approval RiskLevel.r3 = refl
telegram_needs_approval RiskLevel.r4 = refl
telegram_needs_approval RiskLevel.r5 = refl
