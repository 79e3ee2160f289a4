-- ===== src/Lib.antt =====
-- DODA: a model of the backend's application services and domain, and what they guarantee.
--
-- The program is a multi-tenant assistant. A user proposes an action in a workspace; the action is
-- validated, waits for a human approval if its risk is R3 or more, becomes READY, and is handed to
-- a worker through the outbox. Every step writes an event of the customer's audit chain, some send
-- notifications, and a kill switch of the workspace or of the customer stops new proposals.
-- Sessions, memberships, tasks with reminders and a monthly AI budget stand around that.
--
-- Files, and the code that they model (paths in backend/src/doda):
--   Base, Base/Table: shared names; tables as lists of rows in the order of insertion, and queries
--     and updates on them; Base/Table/Laws: their laws, with Counts and
--     Order beside it.
--   Json, Env: JSON values, and what the program takes from outside: clock, random ids and tokens,
--     json.dumps, sha256.
--   Domain: the rows of domain/*/models.py, one record for a table.
--   Domain/Action/Machine: domain/action/state_machine.py; Domain/Action/Policy:
--     domain/action/tool_policy.py.
--   Db: the database, the exceptions, and the monad of the operations. `transaction` is
--     tenant_scoped_session of db.py: an exception takes back what was written.
--   Hashing, Audit, Outbox, Notification, KillSwitch, Authz, Session, Task, Customer, Workspaces,
--     Budget: the module of application/ with that name (audit_service.py and the query by trace
--     of audit_query_service.py, and so on; Budget is ai_budget_service.py).
--   ActionService: application/action_service.py, with a child for proposals, transitions,
--     submissions, approvals and the listing.
--   Db/Upsert, AiPreference, AiSettings: application/ai_preference_service.py and
--     ai_provider_settings_service.py, and the upsert that both write out for each table.
--   Chat: application/conversation_service.py: conversations and history; Chat/Turn: the rounds of a
--     turn; Chat/Stream: stream_message around them; Chat/Tools: application/ai_tools.py;
--     Chat/Context: the settings, the gateways' answers and what else a turn takes from outside.
--   Wire, Telegram: a request to Telegram, and infrastructure/telegram_client.py; TelegramRelay:
--     infrastructure/telegram_relay.py; `posts` and `acked` of the state are what was sent and
--     acknowledged.
--   Api: api/dependencies.py; Api/Actions, Api/Tasks, Api/Conversations: the handlers of
--     api/actions.py, api/tasks.py and api/conversations.py; Api/Errors: api/errors.py.
--   Gate: histories of requests on actions, messages to chats and deliveries by the worker, and the
--     invariant that holds along them.
--   Relay: relay_once of infrastructure/outbox_relay.py; `sent` of the state is what Redis was
--     given.
--   Tests: each theorem at a concrete input.
--   The children of a module that have no operations hold its proofs, and are named for them.
--
-- An operation has the name of its function and takes its arguments in the function's order, or as
-- a record where they are many. A helper by clauses stands for the rest of a function after a
-- lookup or a branch.
--
-- How the state is modelled. Ids are numbers and times are microseconds, both natural numbers; a
-- difference of times is written as a sum on the other side. `ORDER BY` is a stable sort of rows
-- that stand in the order of insertion. An object that a function is given is a snapshot and may be
-- stale; SELECT ... FOR UPDATE reads the row again. Where a function looks a row up and then
-- inserts one under a unique constraint, `meanwhile` is what other transactions commit between the
-- two. A clock reading is the next value of any sequence; a theorem that needs one reading to be
-- later than a stored time says so. `customer_memberships.role` may also be platform_owner, as its
-- CHECK constraint allows.
--
-- No function of the model runs on fuel: loops are recursion on the list that they walk, on the
-- requests that may still be sent, or on the rounds that a turn has left. The loop around the rounds
-- is written out twice, since an error after a fallback leaves it.
--
-- A turn of a chat is a generator. What it yields is the list `chunks` of its variables, and a client
-- that leaves is an exception at the yield. What it ends with after its budget is reserved is a value
-- of the model, so that the variables are still there where it raises.
--
-- Not modelled: row level security (queries see all rows, with the customer predicates as written),
-- but for the job that fires reminders, which has no other predicate for the customer that its
-- session is bound to: the customer is an argument there, and the queries see that customer's rows;
-- messages of exceptions; texts of previews; notify_new_device_login; the listings of members and of
-- a user's customers and workspaces; the handlers of the HTTP layer but those named above, and the
-- rendering of rows as JSON; the gateways' adapters, the loops of the relays and their streams, and
-- the login, which are input and output of third parties; regular expressions over texts; prices,
-- which are floats; migrations, scripts and the web client.
pub mod ActionService
pub mod AiPreference
pub mod AiSettings
pub mod Api
pub mod Audit
pub mod Authz
pub mod Base
pub mod Budget
pub mod Chat
pub mod Customer
pub mod Db
pub mod Domain
pub mod Env
pub mod Gate
pub mod Hashing
pub mod Json
pub mod KillSwitch
pub mod Notification
pub mod Outbox
pub mod Relay
pub mod Session
pub mod Task
pub mod Telegram
pub mod TelegramRelay
pub mod Tests
pub mod Wire
pub mod Workspaces
