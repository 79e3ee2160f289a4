-- ===== src/Gate.antt =====
-- Across backend/src/doda/api/actions.py, api/conversations.py, application/action_service.py and
-- infrastructure/telegram_relay.py: no action of high risk runs without a granted approval.
pub mod Rows
pub mod Transitions
pub mod Submission
pub mod Consumption
pub mod Calls
pub mod Chats
pub mod Posts
pub mod Deliveries
pub mod History
