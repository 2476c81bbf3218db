-- ===== src/Routing/Budget/Operations.antt =====
-- `BudgetLedger`: reserve, release, settle and the warning state.
use skail.Prelude.{
  ℕ, ◌+◌, ◌*◌, String, Bool, true, false, ◌&&◌, not, Option, none, some, List, [], ◌∷◌, ◌++◌,
  str_eq, if◌then◌else◌, leb, ltb, Result, ok, err, ◌>>=◌, ◌>>◌, raise_if, any,
}
use skail.Prelude.Dict.{get, put, has}
use skail.Prelude.Sets.{contains}
use skail.Prelude.Int.{ℤ, pos, ◌-ℤ◌, pos_part, neg_part, ltb_ℤ}
use skail.Routing.Budget.Tables.{
  ReservationStatus, reserved, released, UsageAuthority, Reservation, UsageRecord, Tables,
  LedgerError, unknown_key, run_budget_blocked, task_budget_blocked, idempotency_conflict,
  reservation_state, warning_percent_invalid, ReservationRequest, ReservationResult, BudgetSnapshot,
  status_eq, option_eq, snapshot, task_committed_usd,
}

-- `warning_percent`, as `num / den`
pub record Percent : Type 0 where
  pub num : ℕ
  pub den : ℕ

-- `BudgetLedger.__init__`; a `Decimal` has a positive denominator
unfoldable pub budget_ledger : Percent → Result LedgerError Percent
budget_ledger p = if not (ltb 0 p.num && leb p.num p.den) then err warning_percent_invalid else ok p

-- `snapshot.available_usd or Decimal("0")`
abbrev pub or_zero : Option ℤ → ℤ
or_zero none = pos 0
or_zero (some z) = z

-- `limit > 0 and limit - (available or 0) >= limit * warning_percent`
unfoldable pub is_above : Percent → BudgetSnapshot → Bool
is_above p s = elim s.hard_limit_usd [
  | none ↦ false
  | some l ↦
      let used = pos l -ℤ or_zero s.available_usd in
      ltb 0 l && leb (l * p.num + neg_part used * p.den) (pos_part used * p.den)
]

abbrev pub was_above : Option Bool → Bool
was_above none = false
was_above (some b) = b

-- `BudgetLedger._update_warning`: the new tables and the value of `above and not was_above`
abbrev pub warned : Percent → Tables → String → BudgetSnapshot → Tables × Bool
warned p db run_id s = (
  record db { warnings = put db.warnings run_id (is_above p s) },
  is_above p s && not (was_above (get db.warnings run_id)),
)

unfoldable pub update_warning : Percent → Tables → String → Result LedgerError (Tables × Bool)
update_warning p db run_id = do s ← snapshot db run_id; ok (warned p db run_id s)

-- `WHERE idempotency_key=?`
unfoldable pub find_key : String → List Reservation → Option Reservation
find_key key [] = none
find_key key (r ∷ rows) = if str_eq r.idempotency_key key then some r else find_key key rows

-- `WHERE reservation_id=?`
unfoldable pub find_reservation : String → List Reservation → Option Reservation
find_reservation id [] = none
find_reservation id (r ∷ rows) =
    if str_eq r.reservation_id id then some r else find_reservation id rows

-- `tuple(replay) == expected`
unfoldable pub replays : Reservation → ReservationRequest → Bool
replays r q =
    str_eq r.reservation_id q.reservation_id
    && (str_eq r.run_id q.run_id
        && (option_eq r.task_id q.task_id
            && (leb r.amount_usd q.amount_usd
                && (leb q.amount_usd r.amount_usd
                    && (str_eq r.idempotency_key q.idempotency_key
                        && str_eq r.purpose q.purpose)))))

-- `amount + lead_allowance > available`
abbrev pub exceeds : ℕ → Option ℤ → Bool
exceeds n none = false
exceeds n (some available) = ltb_ℤ available (pos n)

-- the check of `task_limit_usd`, where both it and the task are given
abbrev pub task_exceeds : Tables → ReservationRequest → Option ℕ → Option String → Bool
task_exceeds db q none t = false
task_exceeds db q (some l) none = false
task_exceeds db q (some l) (some t) = ltb l (task_committed_usd db q.run_id t + q.amount_usd)

-- the constraints of `budget_reservations`: primary key, unique key, references to runs and tasks
abbrev known_task : Tables → Option String → Bool
known_task db none = true
known_task db (some t) = contains db.tasks t

unfoldable pub admits_row : Tables → ReservationRequest → Bool
admits_row db q =
    not (any (λ (r : Reservation). str_eq r.reservation_id q.reservation_id) db.reservations)
    && (not (any (λ (r : Reservation). str_eq r.idempotency_key q.idempotency_key) db.reservations)
        && (has db.runs q.run_id && known_task db q.task_id))

abbrev pub reserved_row : ReservationRequest → Reservation
reserved_row q = record {
  reservation_id = q.reservation_id;
  run_id = q.run_id;
  task_id = q.task_id;
  amount_usd = q.amount_usd;
  status = reserved;
  idempotency_key = q.idempotency_key;
  purpose = q.purpose;
}

-- `JournalTransaction.create_reservation` with status "reserved"; a violated constraint is a replay
-- only if the row under the key has the same columns
unfoldable pub create_reservation : ReservationRequest → Tables → Result LedgerError Tables
unfolding admits_row
create_reservation q db =
    if admits_row db q
    then ok (record db { reservations = db.reservations ++ reserved_row q ∷ [] })
    else elim (find_key q.idempotency_key db.reservations) [
      | none ↦ err (idempotency_conflict q.idempotency_key)
      | some r ↦
          if replays r q && status_eq r.status reserved
          then ok db
          else err (idempotency_conflict q.idempotency_key)
    ]

abbrev pub result_of : ReservationRequest → Bool → ReservationResult
result_of q crossed = record {
  reservation_id = q.reservation_id;
  amount_usd = q.amount_usd;
  warning_crossed = crossed;
}

-- the part of `reserve_in_transaction` behind the replay check
unfoldable pub reserve_new :
    Percent
    → ReservationRequest
    → Option ℕ
    → ℕ
    → Tables
    → Result LedgerError (ReservationResult × Tables)
reserve_new p q task_limit_usd lead_allowance_usd db = do
  s ← snapshot db q.run_id
  raise_if (exceeds (q.amount_usd + lead_allowance_usd) s.available_usd) run_budget_blocked
  raise_if (task_exceeds db q task_limit_usd q.task_id) task_budget_blocked
  db' ← create_reservation q db
  w ← update_warning p db' q.run_id
  ok (result_of q w.1, w.0)

-- `BudgetLedger.reserve` and `reserve_in_transaction`
unfoldable pub reserve :
    Percent
    → ReservationRequest
    → Option ℕ
    → ℕ
    → Tables
    → Result LedgerError (ReservationResult × Tables)
reserve p q task_limit_usd lead_allowance_usd db =
    elim (find_key q.idempotency_key db.reservations) [
      | none ↦ reserve_new p q task_limit_usd lead_allowance_usd db
      | some r ↦
          if replays r q
          then ok (result_of q false, db)
          else err (idempotency_conflict q.idempotency_key)
    ]

-- `UPDATE budget_reservations SET status=? WHERE reservation_id=?`
unfoldable pub set_status : String → ReservationStatus → List Reservation → List Reservation
set_status id s [] = []
set_status id s (r ∷ rows) =
    (if str_eq r.reservation_id id then record r { status = s } else r) ∷ set_status id s rows

-- `BudgetLedger.release`
unfoldable pub release : Percent → String → Tables → Result LedgerError Tables
release p id db = elim (find_reservation id db.reservations) [
  | none ↦ err (unknown_key id)
  | some r ↦
      if status_eq r.status released
      then ok db
      else if not (status_eq r.status reserved)
      then err (reservation_state r.status)
      else do
        w ←
            update_warning p (record db { reservations = set_status id released db.reservations })
              r.run_id
        ok w.0
]

abbrev pub is_id : String → Option String → Bool
is_id id none = false
is_id id (some r) = str_eq r id

-- `FROM usage_records WHERE reservation_id=?`
unfoldable pub find_usage : String → List UsageRecord → Option UsageRecord
find_usage id [] = none
find_usage id (u ∷ rows) = if is_id id u.reservation_id then some u else find_usage id rows

-- `UPDATE usage_records SET amount_usd=?,authoritative=?,authority=? WHERE reservation_id=?`
unfoldable pub set_usage : String → ℕ → Bool → UsageAuthority → List UsageRecord → List UsageRecord
set_usage id amount auth authority [] = []
set_usage id amount auth authority (u ∷ rows) =
    (if is_id id u.reservation_id
      then record u { amount_usd = amount; authoritative = auth; authority = authority }
      else u)
    ∷ set_usage id amount auth authority rows
