-- ===== src/Runtime/Scheduler.antt =====
-- src/skail/runtime/scheduler.py: `ChildScheduler`.
pub mod State
pub mod Operations
pub mod Blocking
pub mod Order
pub mod Layers
pub mod Approvals
pub mod Safety
pub mod Starts
pub mod Retries
mod Tests
