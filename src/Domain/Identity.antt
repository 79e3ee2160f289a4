-- ===== src/Domain/Identity.antt =====
-- backend/src/doda/domain/identity/models.py. `User` is read by no operation modelled here.
use doda.Base.{ℕ, String, Option}

pub data AuthStrength : Type 0 where
  aal1 aal2 : AuthStrength

pub record Session : Type 0 where
  pub id : ℕ
  pub created_at : ℕ
  pub user_id : ℕ
  pub auth_strength : AuthStrength
  pub last_seen_at : ℕ
  pub expires_at : ℕ
  pub revoked_at : Option ℕ
  pub user_agent : Option String
