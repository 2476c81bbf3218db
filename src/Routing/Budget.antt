-- ===== src/Routing/Budget.antt =====
-- src/skail/routing/budget.py: the ledger of reservations and usage in the journal's tables.
--
-- A `Decimal` is a natural number of the ledger's unit, 10^-12 USD, which holds the cost of tokens
-- whose prices are whole micro-dollars per million, so that sums are exact. A replay compares numbers
-- where the source compares their texts, which differ for 1.5 and 1.50. `warning_percent` is a
-- fraction. Columns that no test reads (`updated_at`, `created_at`) are left out. A raised error
-- carries no tables: `Journal.transaction` rolls back.
pub mod Tables
pub mod Operations
pub mod Settle
pub mod Rows
pub mod Accounts
pub mod Settlements
pub mod Limits
pub mod Histories
pub mod Replays
pub mod Warnings
pub mod Exchanges
mod Tests
