-- ===== src/Sessions/Recovery.antt =====
-- src/skail/sessions/recovery.py: `_recover_locked` over the tables of the journal.
--
-- The checkpoint store is a parameter by what `latest_valid` answers; the lock and the comparison
-- of the two paths are left out, and so is the reconciliation of plan nodes that follows.
pub mod Tables
pub mod Passes
pub mod Attempts
pub mod Moves
pub mod Tasks
pub mod Releases
