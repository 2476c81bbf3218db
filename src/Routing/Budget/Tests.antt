-- ===== src/Routing/Budget/Tests.antt =====
-- A run with a limit of 100 units, and the theorems of the ledger at inputs that use it.
use skail.Prelude.{
  ◌+◌, ◌≤◌, String, ◌≡◌, ◌↔◌, refl, true, false, none, some, [], ◌∷◌, arith, ok, err,
}
use skail.Prelude.Dict.{get, put}
use skail.Prelude.Sets.{contains}
use skail.Prelude.Int.{◌-ℤ◌}
use skail.Routing.Budget.Tables.{
  Tables, Reservation, ReservationRequest, ReservationResult, ReservationStatus, reserved, released,
  settled, UsageRecord, token_derived_estimate, snapshot, reserved_usd, actual_usd, estimated_usd,
  run_budget_blocked,
}
use skail.Routing.Budget.Operations.{
  Percent, budget_ledger, reserve, reserve_new, release, find_reservation, find_key, find_usage,
  is_above, update_warning, replays, create_reservation, admits_row, set_status, result_of,
}
use skail.Routing.Budget.Settle.{Settlement, settle, settle_new}
use skail.Routing.Budget.Rows.{committed}
use skail.Routing.Budget.Limits.{IsWithin, share}
use skail.Routing.Budget.Histories.{reserving, settling, History, start, next, History-limited}
use skail.Routing.Budget.Replays.{FitsTask, reserve_granted_iff, FitsTask}
use skail.Routing.Budget.Exchanges.{settle_exchanges}

abbrev percent : Percent
percent = record { num = 80; den = 100 }

abbrev empty : Tables
empty = record {
  runs = ("run", some 100) ∷ [];
  tasks = "task" ∷ [];
  reservations = [];
  usage_records = [];
  warnings = [];
}

abbrev request : ReservationRequest
request = record {
  reservation_id = "r1";
  run_id = "run";
  task_id = some "task";
  amount_usd = 85;
  idempotency_key = "k1";
  purpose = "task_attempt";
}

abbrev row : ReservationStatus → Reservation
row s = record {
  reservation_id = "r1";
  run_id = "run";
  task_id = some "task";
  amount_usd = 85;
  status = s;
  idempotency_key = "k1";
  purpose = "task_attempt";
}

abbrev held : Tables
held = record empty { reservations = row reserved ∷ []; warnings = ("run", true) ∷ [] }

abbrev payment : Settlement
payment = record {
  reservation_id = "r1";
  usage_id = "u1";
  usage = record { cost_usd = some 30; authority = token_derived_estimate };
  idempotency_key = "s1";
}

abbrev usage : UsageRecord
usage = record {
  usage_id = "u1";
  run_id = "run";
  task_id = some "task";
  amount_usd = 30;
  authoritative = false;
  authority = token_derived_estimate;
  idempotency_key = "s1";
  reservation_id = some "r1";
}

abbrev paid : Tables
paid = record empty {
  reservations = row settled ∷ [];
  usage_records = usage ∷ [];
  warnings = ("run", false) ∷ [];
}

abbrev freed : Tables
freed = record empty { reservations = row released ∷ []; warnings = ("run", false) ∷ [] }

budget_ledger_accepts : budget_ledger percent ≡ ok percent
unfolding budget_ledger
budget_ledger_accepts = refl

reserve_runs : reserve percent request none 10 empty ≡ ok (result_of request true, held)
unfolding reserve reserve_new snapshot create_reservation update_warning is_above find_key get put
    contains reserved_usd actual_usd estimated_usd ◌-ℤ◌
reserve_runs = refl

reserve_blocked : reserve percent request none 20 empty ≡ err run_budget_blocked
unfolding reserve reserve_new snapshot find_key get reserved_usd actual_usd estimated_usd ◌-ℤ◌
reserve_blocked = refl

settle_runs : settle percent payment held ≡ ok paid
unfolding settle settle_new find_reservation find_usage snapshot update_warning is_above get put
    reserved_usd actual_usd estimated_usd ◌-ℤ◌ set_status
settle_runs = refl

release_runs : release percent "r1" held ≡ ok freed
unfolding release find_reservation snapshot update_warning is_above get put reserved_usd actual_usd
    estimated_usd ◌-ℤ◌ set_status
release_runs = refl

-- Asking again for a reservation that was released succeeds, and nothing is reserved for it.
reserve_after_release : reserve percent request none 10 freed ≡ ok (result_of request false, freed)
unfolding reserve find_key replays
reserve_after_release = refl

empty-IsWithin : IsWithin empty
unfolding get reserved_usd
empty-IsWithin = record { limited = λ run_id l g. omega arith; distinct = tt; unique = tt }

held-IsWithin : IsWithin held
unfolding get reserved_usd
held-IsWithin = record { limited = λ run_id l g. ground arith; distinct = (tt, tt); unique = tt }

history : History percent empty paid
unfolding find_usage find_reservation
history =
    next (next start (reserving request none 10 (result_of request true) reserve_runs))
      (settling payment settle_runs (λ r cost f g. ground arith))

History-limited_example : committed "run" paid ≤ 100
unfolding get
History-limited_example = History-limited percent empty paid "run" 100 history empty-IsWithin refl

reserve_granted_iff_example :
    ((res : ReservationResult) × (db' : Tables) × (reserve percent request (some 90) 10 empty
        ≡ ok (res, db')))
    ↔ (85 + 10 + committed "run" empty ≤ 100) × FitsTask empty request (some 90) request.task_id
unfolding find_key admits_row get contains
reserve_granted_iff_example =
    reserve_granted_iff percent request (some 90) 10 100 empty refl refl refl

settle_exchanges_example :
    ((run_id : String)
      → committed run_id paid + share "run" run_id 85
        ≡ committed run_id held + share "run" run_id 30)
    × (find_reservation "r1" paid.reservations ≡ some (row settled))
unfolding find_reservation find_usage
settle_exchanges_example =
    settle_exchanges percent payment held paid (row reserved) 30 held-IsWithin.distinct refl refl
      refl settle_runs
