-- ===== src/Routing.antt =====
-- src/skail/routing: the budget ledger the choice of models, and the assignment of both.
pub mod Budget
pub mod Estimates
pub mod Selector
pub mod Assignment
pub mod Usage
mod Tests
