-- ===== src/Domain/Security.antt =====
-- backend/src/doda/domain/security: roles, decisions and the kill switch rows.
use doda.Base.{ℕ, String, Bool, true, false}

pub data CustomerRole : Type 0 where
  customer_owner member auditor : CustomerRole

-- What the CHECK constraint of migration 0003 lets the column `customer_memberships.role` hold.
pub data StoredRole : Type 0 where
  role : CustomerRole → StoredRole
  platform_owner : StoredRole

pub data WorkspaceRole : Type 0 where
  workspace_admin member : WorkspaceRole

pub data Decision : Type 0 where
  allow deny step_up_required approval_required : Decision

abbrev pub may_propose_actions : WorkspaceRole → Bool
may_propose_actions WorkspaceRole.workspace_admin = true
may_propose_actions WorkspaceRole.member = true

abbrev pub may_approve_another_actors_action : WorkspaceRole → Bool
may_approve_another_actors_action WorkspaceRole.workspace_admin = true
may_approve_another_actors_action WorkspaceRole.member = false

pub record WorkspaceKillSwitch : Type 0 where
  pub workspace_id : ℕ
  pub customer_id : ℕ
  pub engaged_at : ℕ
  pub engaged_by : String
  pub reason : String

pub record CustomerKillSwitch : Type 0 where
  pub customer_id : ℕ
  pub engaged_at : ℕ
  pub engaged_by : String
  pub reason : String
