-- ===== src/Routing/Budget/Tables.antt =====
-- The tables that the ledger reads and writes (src/skail/sessions/schema.py), its requests and its
-- snapshot.
use skail.Prelude.{
  ℕ, ◌+◌, String, Bool, true, false, ◌&&◌, not, Option, none, some, List, str_eq, ◌==◌, Result, ok,
  err, sum_where,
}
use skail.Prelude.Dict.{Dict, get}
use skail.Prelude.Int.{ℤ, pos, ◌-ℤ◌}

pub data ReservationStatus : Type 0 where
  reserved released settled active : ReservationStatus

abbrev position : ReservationStatus → ℕ
position reserved = 0
position released = 1
position settled = 2
position active = 3

abbrev pub status_eq : ReservationStatus → ReservationStatus → Bool
status_eq a b = position a == position b

-- src/skail/domain/usage.py
pub data UsageAuthority : Type 0 where
  authoritative_actual token_derived_estimate conservative_estimate unknown estimated_actual
        reconciled_estimate :
      UsageAuthority

abbrev authority_position : UsageAuthority → ℕ
authority_position authoritative_actual = 0
authority_position token_derived_estimate = 1
authority_position conservative_estimate = 2
authority_position unknown = 3
authority_position estimated_actual = 4
authority_position reconciled_estimate = 5

abbrev pub authority_eq : UsageAuthority → UsageAuthority → Bool
authority_eq a b = authority_position a == authority_position b

-- a row of `budget_reservations`
pub record Reservation : Type 0 where
  pub reservation_id : String
  pub run_id : String
  pub task_id : Option String
  pub amount_usd : ℕ
  pub status : ReservationStatus
  pub idempotency_key : String
  pub purpose : String

-- a row of `usage_records`; `reservation_id` is NULL in rows that `settle` did not write
pub record UsageRecord : Type 0 where
  pub usage_id : String
  pub run_id : String
  pub task_id : Option String
  pub amount_usd : ℕ
  pub authoritative : Bool
  pub authority : UsageAuthority
  pub idempotency_key : String
  pub reservation_id : Option String

-- `runs` holds the column `budget_limit_usd` under `run_id`, `tasks` the known task identities,
-- `warnings` the column `is_above_threshold` of `budget_warning_state`.
pub record Tables : Type 0 where
  pub runs : Dict (Option ℕ)
  pub tasks : List String
  pub reservations : List Reservation
  pub usage_records : List UsageRecord
  pub warnings : Dict Bool

pub data LedgerError : Type 0 where
  unknown_key : String → LedgerError
  run_budget_blocked task_budget_blocked : LedgerError
  idempotency_conflict : String → LedgerError
  reservation_state : ReservationStatus → LedgerError
  unresolved_cost warning_percent_invalid integrity_error : LedgerError

pub record ReservationRequest : Type 0 where
  pub reservation_id : String
  pub run_id : String
  pub task_id : Option String
  pub amount_usd : ℕ
  pub idempotency_key : String
  pub purpose : String

pub record ReservationResult : Type 0 where
  pub reservation_id : String
  pub amount_usd : ℕ
  pub warning_crossed : Bool

-- src/skail/domain/usage.py; the token counts are not read by the ledger
pub record NormalizedUsage : Type 0 where
  pub cost_usd : Option ℕ
  pub authority : UsageAuthority

pub record BudgetSnapshot : Type 0 where
  pub hard_limit_usd : Option ℕ
  pub authoritative_actual_usd : ℕ
  pub estimated_actual_usd : ℕ
  pub reserved_usd : ℕ
  pub available_usd : Option ℤ

abbrev pub option_eq : Option String → Option String → Bool
option_eq none none = true
option_eq (some a) (some b) = str_eq a b
option_eq _ _ = false

-- `WHERE run_id=? AND status='reserved'`
abbrev pub holds_for : String → Reservation → Bool
holds_for run_id r = str_eq r.run_id run_id && status_eq r.status reserved

-- `WHERE run_id=? AND task_id=?`: a comparison with NULL selects no row
abbrev of_task : String → String → String → Option String → Bool
of_task run_id task_id row_run none = false
of_task run_id task_id row_run (some t) = str_eq row_run run_id && str_eq t task_id

unfoldable pub reserved_usd : String → List Reservation → ℕ
reserved_usd run_id = sum_where (λ r. r.amount_usd) (holds_for run_id)

unfoldable pub actual_usd : String → List UsageRecord → ℕ
actual_usd run_id = sum_where (λ u. u.amount_usd) (λ u. str_eq u.run_id run_id && u.authoritative)

unfoldable pub estimated_usd : String → List UsageRecord → ℕ
estimated_usd run_id =
    sum_where (λ u. u.amount_usd) (λ u. str_eq u.run_id run_id && not u.authoritative)

abbrev pub available : Option ℕ → ℕ → ℕ → ℕ → Option ℤ
available none actual estimated held = none
available (some l) actual estimated held = some (pos l -ℤ pos actual -ℤ pos estimated -ℤ pos held)

-- `BudgetLedger._snapshot`, for a run that is there
abbrev pub snapshot_of : Tables → String → Option ℕ → BudgetSnapshot
snapshot_of db run_id limit =
    let actual = actual_usd run_id db.usage_records in
    let estimated = estimated_usd run_id db.usage_records in
    let held = reserved_usd run_id db.reservations in
    record {
      hard_limit_usd = limit;
      authoritative_actual_usd = actual;
      estimated_actual_usd = estimated;
      reserved_usd = held;
      available_usd = available limit actual estimated held;
    }

unfoldable pub snapshot : Tables → String → Result LedgerError BudgetSnapshot
snapshot db run_id = elim (get db.runs run_id) [
  | none ↦ err (unknown_key run_id)
  | some limit ↦ ok (snapshot_of db run_id limit)
]

unfoldable pub task_usage : String → String → List UsageRecord → ℕ
task_usage run_id task_id =
    sum_where (λ u. u.amount_usd) (λ u. of_task run_id task_id u.run_id u.task_id)

unfoldable pub task_reserved : String → String → List Reservation → ℕ
task_reserved run_id task_id =
    sum_where (λ r. r.amount_usd)
      (λ r. of_task run_id task_id r.run_id r.task_id && status_eq r.status reserved)

unfoldable pub task_committed_usd : Tables → String → String → ℕ
unfolding task_usage task_reserved
task_committed_usd db run_id task_id =
    task_usage run_id task_id db.usage_records + task_reserved run_id task_id db.reservations
