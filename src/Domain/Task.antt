-- ===== src/Domain/Task.antt =====
-- backend/src/doda/domain/task/models.py
use doda.Base.{ℕ, String, Option}

pub data TaskStatus : Type 0 where
  todo in_progress done cancelled : TaskStatus

pub record Task : Type 0 where
  pub id : ℕ
  pub created_at : ℕ
  pub customer_id : ℕ
  pub workspace_id : ℕ
  pub owner_id : String
  pub title : String
  pub parent_task_id : Option ℕ
  pub status : TaskStatus
  pub due_date : Option ℕ

pub record TaskHistory : Type 0 where
  pub id : ℕ
  pub created_at : ℕ
  pub customer_id : ℕ
  pub task_id : ℕ
  pub actor_id : String
  pub from_status : Option TaskStatus
  pub to_status : TaskStatus

pub data ReminderStatus : Type 0 where
  pending_confirmation confirmed cancelled fired : ReminderStatus

pub record Reminder : Type 0 where
  pub id : ℕ
  pub created_at : ℕ
  pub customer_id : ℕ
  pub workspace_id : ℕ
  pub task_id : ℕ
  pub actor_id : String
  pub remind_at : ℕ
  pub status : ReminderStatus
  pub confirmed_at : Option ℕ
  pub fired_at : Option ℕ

pub record TaskDecision : Type 0 where
  pub id : ℕ
  pub created_at : ℕ
  pub customer_id : ℕ
  pub task_id : ℕ
  pub actor_id : String
  pub variant : String
  pub tradeoff : String
  pub decision : String
  pub reason : String
