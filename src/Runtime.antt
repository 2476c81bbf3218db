-- ===== src/Runtime.antt =====
-- src/skail/runtime: scheduling, identity and admission of delegated work.
pub mod Scheduler
pub mod Leases
pub mod Monitor
pub mod Questions
pub mod Escalation
pub mod Registry
pub mod Decisions
mod Tests
