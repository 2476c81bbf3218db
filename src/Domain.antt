-- ===== src/Domain.antt =====
-- src/skail/domain: the typed records and state machines that the runtime shares.
pub mod Tasks
pub mod Attempts
pub mod Graph
pub mod Plans
mod Tests
