-- ===== src/Domain/Tenant.antt =====
-- backend/src/doda/domain/customer/models.py and domain/workspace/models.py. The role columns are
-- texts that CHECK constraints (migration 0003) hold to a few values.
use doda.Base.{ℕ, String, Option}
use doda.Domain.Security.{StoredRole, WorkspaceRole}

pub record Customer : Type 0 where
  pub id : ℕ
  pub created_at : ℕ
  pub name : String

pub record CustomerMembership : Type 0 where
  pub id : ℕ
  pub created_at : ℕ
  pub customer_id : ℕ
  pub user_id : ℕ
  pub role : StoredRole

pub record UserCustomerIndex : Type 0 where
  pub user_id : ℕ
  pub customer_id : ℕ

pub record Workspace : Type 0 where
  pub id : ℕ
  pub created_at : ℕ
  pub customer_id : ℕ
  pub name : String
  pub archived_at : Option ℕ

pub record WorkspaceLanguageSetting : Type 0 where
  pub id : ℕ
  pub created_at : ℕ
  pub customer_id : ℕ
  pub workspace_id : ℕ
  pub actor_id : String
  pub language : Option String

pub record WorkspaceTenantIndex : Type 0 where
  pub workspace_id : ℕ
  pub customer_id : ℕ

pub record WorkspaceMembership : Type 0 where
  pub id : ℕ
  pub created_at : ℕ
  pub customer_id : ℕ
  pub customer_membership_id : ℕ
  pub workspace_id : ℕ
  pub role : WorkspaceRole
