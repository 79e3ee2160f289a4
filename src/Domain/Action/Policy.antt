-- ===== src/Domain/Action/Policy.antt =====
-- backend/src/doda/domain/action/tool_policy.py, but for the texts of the previews.
pub mod Floor
use doda.Base.{
  ℕ, String, Bool, true, false, Option, none, some, ◌≡◌, ◌≤◌, leb, str_eq, arith, if◌then◌else◌,
}
use doda.Domain.Action.{RiskLevel, r0, r1, r2, r3, r4, r5, auto_approved}

-- `_RISK_ORDER`
unfoldable pub risk_order : RiskLevel → ℕ
risk_order r0 = 0
risk_order r1 = 1
risk_order r2 = 2
risk_order r3 = 3
risk_order r4 = 4
risk_order r5 = 5

-- `TOOL_MINIMUM_RISK_LEVEL.get(tool_name)`
unfoldable pub tool_minimum_risk_level : String → Option RiskLevel
tool_minimum_risk_level tool_name =
    if str_eq tool_name "telegram.send_message" then some r3 else none

unfoldable pub enforce_minimum_risk_level : String → RiskLevel → RiskLevel
unfolding risk_order tool_minimum_risk_level
enforce_minimum_risk_level tool_name requested = elim (tool_minimum_risk_level tool_name) [
  | none ↦ requested
  | some minimum ↦ if leb (risk_order minimum) (risk_order requested) then requested else minimum
]
