-- ===== src/Tests/Data.antt =====
-- A concrete environment and concrete rows for the examples.
use Prim.Native.String.{◌++◌ as str_append}
use doda.Base.{none, some, [], ◌∷◌}
use doda.Json.{text}
use doda.Env.{Env}
use doda.Db.{Db, State}
use doda.Domain.Action.{Action, ActionStatus, RiskLevel, Approval, ApprovalStatus}

-- The first text in a value stands for its dump, and a hash for itself.
abbrev pub demo : Env
demo = record {
  clock = λ n. n;
  uuid4 = λ n. n;
  token_urlsafe = λ n. "token";
  str_uuid = λ n. "id";
  isoformat = λ n. "time";
  year_month = λ n. "2026-01";
  parse_uuid = λ t. some 7;
  dumps = λ j. "dump";
  sha256_hex = λ t. str_append "hash of " t;
}

abbrev pub empty : Db
empty = record {
  customers = [];
  customer_memberships = [];
  user_customer_index = [];
  workspaces = [];
  workspace_memberships = [];
  workspace_tenant_index = [];
  language_settings = [];
  sessions = [];
  actions = [];
  approvals = [];
  audit_events = [];
  audit_chain_tips = [];
  notifications = [];
  preferences = [];
  outbox = [];
  workspace_switches = [];
  customer_switches = [];
  tasks = [];
  task_history = [];
  task_decisions = [];
  reminders = [];
  ledgers = [];
  usage_events = [];
  user_preferences = [];
  workspace_preferences = [];
  provider_settings = [];
  fallback_settings = [];
  verifications = [];
  conversations = [];
  messages = [];
}

abbrev pub at_start : Db → State
at_start db = record {
  db = db;
  reads = 100;
  ids = 100;
  tokens = 0;
  sent = [];
  posts = [];
  acked = [];
}

abbrev pub draft : RiskLevel → Action
draft level = record {
  id = 5;
  created_at = 1;
  customer_id = 1;
  workspace_id = 2;
  trace_id = 9;
  task_id = none;
  actor_id = "user:id";
  tool_name = "mail.send";
  risk_level = level;
  payload = text "hello";
  payload_hash = "payload hash";
  idempotency_key = "key";
  status = ActionStatus.draft;
}

abbrev pub waiting : Action
waiting = record (draft RiskLevel.r3) { status = ActionStatus.awaiting_approval }

abbrev pub approval : Approval
approval = record {
  id = 6;
  created_at = 2;
  customer_id = 1;
  action_id = 5;
  payload_hash = "payload hash";
  approver_id = none;
  nonce = "nonce";
  status = ApprovalStatus.pending;
  expires_at = 150;
}

abbrev pub with_action : Action → State
with_action a = at_start (record empty { actions = a ∷ [] })

abbrev pub with_approval : Approval → State
with_approval p = at_start (record empty { actions = waiting ∷ []; approvals = p ∷ [] })
