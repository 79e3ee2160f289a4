-- ===== src/Domain/Notification.antt =====
-- backend/src/doda/domain/notification/models.py
use doda.Base.{ℕ, String, Bool, Option}
use doda.Json.{Json}

pub data NotificationType : Type 0 where
  pending_approval failed_action completed_task security_alert reminder_due : NotificationType

pub record Notification : Type 0 where
  pub id : ℕ
  pub created_at : ℕ
  pub customer_id : ℕ
  pub workspace_id : Option ℕ
  pub recipient_id : String
  pub notification_type : NotificationType
  pub reference_type : String
  pub reference_id : ℕ
  pub safe_metadata : Json
  pub read_at : Option ℕ

pub record NotificationPreference : Type 0 where
  pub id : ℕ
  pub created_at : ℕ
  pub customer_id : ℕ
  pub recipient_id : String
  pub notification_type : NotificationType
  pub enabled : Bool
