-- ===== src/Tests.antt =====
-- The examples: each theorem applied at a concrete input.
mod Data
mod Actions
mod Audit
mod Accounts
mod Work
mod Telegram
mod Gate
mod Chat
