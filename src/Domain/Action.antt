-- ===== src/Domain/Action.antt =====
-- backend/src/doda/domain/action: the rows (models.py, approval.py), the state machine
-- (state_machine.py) and the risk floor of a tool (tool_policy.py).
pub mod Machine
pub mod Policy
use doda.Base.{ℕ, ◌*◌, String, Bool, true, false, Option}
use doda.Json.{Json}

pub data RiskLevel : Type 0 where
  r0 r1 r2 r3 r4 r5 : RiskLevel

-- `level in AUTO_APPROVED_RISK_LEVELS`
abbrev pub auto_approved : RiskLevel → Bool
auto_approved r0 = true
auto_approved r1 = true
auto_approved r2 = true
auto_approved r3 = false
auto_approved r4 = false
auto_approved r5 = false

pub data ActionStatus : Type 0 where
  draft validating awaiting_approval ready running succeeded failed : ActionStatus
  retrying compensating compensated denied rejected expired cancelled : ActionStatus

pub record Action : Type 0 where
  pub id : ℕ
  pub created_at : ℕ
  pub customer_id : ℕ
  pub workspace_id : ℕ
  pub trace_id : ℕ
  pub task_id : Option ℕ
  pub actor_id : String
  pub tool_name : String
  pub risk_level : RiskLevel
  pub payload : Json
  pub payload_hash : String
  pub idempotency_key : String
  pub status : ActionStatus

pub data ApprovalStatus : Type 0 where
  pending approved denied expired : ApprovalStatus

pub record Approval : Type 0 where
  pub id : ℕ
  pub created_at : ℕ
  pub customer_id : ℕ
  pub action_id : ℕ
  pub payload_hash : String
  pub approver_id : Option String
  pub nonce : String
  pub status : ApprovalStatus
  pub expires_at : ℕ

-- Ten minutes, in microseconds.
abbrev pub default_approval_ttl : ℕ
default_approval_ttl = 10 * 60000000
