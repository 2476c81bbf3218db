-- ===== src/Routing/Usage.antt =====
-- src/skail/routing/assignment.py: `AssignmentUsageSettler`, which follows the provider calls of an
-- assignment and settles their cost in the ledger.
--
-- `uuid4` values are arguments. A response is what the provider's adapter reads from its messages.
-- Error summaries and times are left out; a call that raises is rolled back, and has no store.
pub mod Tables
pub mod Calls
pub mod Recording
pub mod Settling
pub mod Reconciling
pub mod Effects
pub mod Marks
pub mod Moves
pub mod Sweeps
pub mod Accounted
pub mod Keeping
pub mod Histories
pub mod Once
pub mod Costs
mod Tests
