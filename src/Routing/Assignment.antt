-- ===== src/Routing/Assignment.antt =====
-- src/skail/routing/assignment.py: `AssignmentService`, which chooses a model for an attempt,
-- reserves its cost in the ledger and records both in the journal's tables.
--
-- `new_assignment_id` and `new_reservation_id` are uuid4 values: a call takes the identities that
-- it draws as arguments. `config_revision` is a SHA-256 of canonical JSON: a request holds its
-- value. A payload is kept as the value that its JSON text encodes; the copies of the inputs in it
-- that no code reads back are left out, and so is the explanation for people.
pub mod Tables
pub mod Lookups
pub mod Persisting
pub mod Service
pub mod Traces
pub mod Releases
pub mod Accounts
pub mod Replays
pub mod Retries
pub mod Batch
pub mod Funding
pub mod Charges
pub mod Sequences
pub mod Histories
pub mod Samples
mod Tests
