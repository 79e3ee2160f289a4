-- ===== src/Domain.antt =====
-- The tables and enumerations of backend/src/doda/domain, a module for each package there.
pub mod Ai
pub mod Security
pub mod Identity
pub mod Tenant
pub mod Action
pub mod Audit
pub mod Notification
pub mod Outbox
pub mod Task
pub mod Usage
