-- ===== src/Db.antt =====
-- The database, and the monad of the application's functions. A function that takes an
-- `AsyncSession` is an action: it reads the environment, writes the tables, and returns or raises.
-- What was written before a raise stays written until the transaction that encloses it is rolled
-- back (`transaction`).
pub mod Keeps
pub mod Upsert
use doda.Base.{ℕ, suc, String, Bool, Option, none, some, List, if◌then◌else◌}
use doda.Env.{Env}
use doda.Wire.{Post}
use doda.Domain.Security.{WorkspaceKillSwitch, CustomerKillSwitch, Decision}
use doda.Domain.Identity.{Session}
use doda.Domain.Tenant.{
  Customer, CustomerMembership, UserCustomerIndex, Workspace, WorkspaceMembership,
  WorkspaceTenantIndex, WorkspaceLanguageSetting,
}
use doda.Domain.Action.{Action, ActionStatus, Approval, ApprovalStatus}
use doda.Domain.Audit.{AuditEvent, AuditChainTip}
use doda.Domain.Notification.{Notification, NotificationPreference}
use doda.Domain.Outbox.{OutboxMessage}
use doda.Domain.Task.{Task, TaskStatus, TaskHistory, TaskDecision, Reminder}
use doda.Domain.Usage.{AiBudgetLedger, AiUsageEvent}
use doda.Domain.Ai.{
  Provider, UserAiPreference, WorkspaceAiPreference, CustomerAiProviderSetting,
  CustomerAiFallbackSetting, AiProviderVerification, Conversation, Message,
}

pub record Db : Type 0 where
  pub customers : List Customer
  pub customer_memberships : List CustomerMembership
  pub user_customer_index : List UserCustomerIndex
  pub workspaces : List Workspace
  pub workspace_memberships : List WorkspaceMembership
  pub workspace_tenant_index : List WorkspaceTenantIndex
  pub language_settings : List WorkspaceLanguageSetting
  pub sessions : List Session
  pub actions : List Action
  pub approvals : List Approval
  pub audit_events : List AuditEvent
  pub audit_chain_tips : List AuditChainTip
  pub notifications : List Notification
  pub preferences : List NotificationPreference
  pub outbox : List OutboxMessage
  pub workspace_switches : List WorkspaceKillSwitch
  pub customer_switches : List CustomerKillSwitch
  pub tasks : List Task
  pub task_history : List TaskHistory
  pub task_decisions : List TaskDecision
  pub reminders : List Reminder
  pub ledgers : List AiBudgetLedger
  pub usage_events : List AiUsageEvent
  pub user_preferences : List UserAiPreference
  pub workspace_preferences : List WorkspaceAiPreference
  pub provider_settings : List CustomerAiProviderSetting
  pub fallback_settings : List CustomerAiFallbackSetting
  pub verifications : List AiProviderVerification
  pub conversations : List Conversation
  pub messages : List Message

-- The tables, and how often the clock, the ids and the tokens were read.
pub record State : Type 0 where
  pub db : Db
  pub reads : ℕ
  pub ids : ℕ
  pub tokens : ℕ
  -- What was handed to the streams of Redis, which no rollback takes back.
  pub sent : List OutboxMessage
  -- The requests that were sent to Telegram, and the stream entries that were acknowledged. No
  -- rollback takes these back either.
  pub posts : List Post
  pub acked : List ℕ

-- The exceptions, without their messages but for the reason that tells two of one class apart.
pub data Error : Type 0 where
  assertion_error value_error integrity_error : Error
  invalid_action_transition : ActionStatus → ActionStatus → Error
  missing_provider_receipt : ℕ → Error
  invalid_compensation_outcome : ActionStatus → Error
  action_not_cancellable : ℕ → ActionStatus → Error
  approval_not_pending : ApprovalStatus → Error
  approval_nonce_mismatch approval_expired approval_payload_changed : Error
  approval_wrong_status : ActionStatus → Error
  kill_switch_engaged : String → Error
  notification_preference_error : Error
  authorization_error : Decision → Error
  session_invalid : String → Error
  invalid_task_transition : TaskStatus → TaskStatus → Error
  task_parent_not_found reminder_not_pending reminder_mismatch : Error
  customer_membership_error duplicate_membership : Error
  workspace_membership_error duplicate_workspace_membership : Error
  budget_exceeded : Error
  transport_error : Error
  not_found : String → Error
  attribute_error key_error type_error : Error
  telegram_send_error telegram_transient_error : Error
  model_not_configured model_authentication model_rate_limited model_timeout model_provider : Error
  outbound_content_blocked deep_cost_ceiling unknown_model_pricing : Error
  unsupported_capability : Error
  provider_disabled : Provider → Error
  tool_arguments_invalid tool_not_found : String → Error
  -- What closes a generator at its `yield`: a BaseException.
  generator_exit : Error

pub data Result (A : Type 0) : Type 0 where
  ok : A → Result A
  err : Error → Result A

abbrev pub M : Type 0 → Type 0
M A = Env → State → Result A × State

abbrev pub after : {A B : Type 0} → Result A × State → (A → M B) → Env → Result B × State
after (ok a, s) f e = f a e s
after (err x, s) f e = (err x, s)

infixl 5 ◌>>=◌ ◌>>◌
abbrev pub ◌>>=◌ : {A B : Type 0} → M A → (A → M B) → M B
◌>>=◌ m f e s = after (m e s) f e

abbrev pub ◌>>◌ : {A B : Type 0} → M A → M B → M B
m >> k = m >>= λ _. k

module _ {A : Type 0} where
  abbrev pub pure : A → M A
  pure a e s = (ok a, s)

  abbrev pub raise : Error → M A
  raise x e s = (err x, s)

  abbrev pub gets : (Db → A) → M A
  gets f e s = (ok (f s.db), s)

  abbrev pub asks : (Env → A) → M A
  asks f e s = (ok (f e), s)

  -- `assert row is not None`
  abbrev pub some_or_raise : Option A → Error → M A
  some_or_raise none x = raise x
  some_or_raise (some a) x = pure a

abbrev pub modify : (Db → Db) → M (Unit {0})
modify f e s = (ok tt, record s { db = f s.db })

abbrev pub raise_if : Bool → Error → M (Unit {0})
raise_if c x e s = (if c then err x else ok tt, s)

abbrev pub utcnow : M ℕ
utcnow e s = (ok (e.clock s.reads), record s { reads = suc s.reads })

abbrev pub uuid4 : M ℕ
uuid4 e s = (ok (e.uuid4 s.ids), record s { ids = suc s.ids })

abbrev pub token_urlsafe : M String
token_urlsafe e s = (ok (e.token_urlsafe s.tokens), record s { tokens = suc s.tokens })

-- `try`: the block returns what it returned or raised.
abbrev pub attempt : {A : Type 0} → M A → M (Result A)
attempt m e s = let (r, s') = m e s in (ok r, s')

-- What a transaction leaves: all that was written if the block returns, and none of it if it
-- raises. The readings of the clock and the random sources are not taken back.
abbrev pub settle : {A : Type 0} → Db → Result A × State → Result A × State
settle old (ok a, s) = (ok a, s)
settle old (err x, s) = (err x, record s { db = old })

-- `async with session.begin():`
unfoldable pub transaction : {A : Type 0} → M A → M A
transaction m e s = settle s.db (m e s)
