-- ===== src/Runtime/Decisions.antt =====
-- src/skail/runtime/decisions.py: `ExecutionDecisionGate`, which admits the lead's decision and holds
-- back its tools until then. A method that raises still changes the gate, so that each gives the
-- gate with its result. Parsing, the plan store and the operations on paths are parameters; the
-- callback that writes the decision is taken not to raise.
pub mod State
pub mod Operations
pub mod Scopes
pub mod Admissions
mod Tests
