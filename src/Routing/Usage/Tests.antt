-- ===== src/Routing/Usage/Tests.antt =====
-- One provider call of the assignment of the service's tests.
use skail.Prelude.{◌≡◌, refl, true, false, none, some, [], ◌∷◌, ok, err, All}
use skail.Prelude.Dict.{get}
use skail.Routing.Budget.Operations.{find_reservation}
use skail.Routing.Assignment.Tables.{AssignmentRow}
use skail.Routing.Assignment.Lookups.{find_assignment, find_attempt}
use skail.Routing.Assignment.Persisting.{assignment_row}
use skail.Routing.Assignment.Samples.{after, request, chosen, ids, percent}
use skail.Routing.Usage.Tables.{
  ambiguous, started, UsageStore, UsageError, CallStatus, ProviderCall, run_of, find_call, set_call,
  find_failure,
}
use skail.Routing.Usage.Calls.{
  find_execution, is_uncertain, observed_cost, last_ordinal, begin_in, begin_call, mark_ambiguous,
  mark_unreturned_calls_ambiguous, note_failure,
}
use skail.Routing.Usage.Settling.{settlement_of, known_cost}
use skail.Routing.Usage.Reconciling.{
  CallReconciliationResult, preview_ambiguous_call, reconciliation_state, open_calls,
  reconciled_cost,
}
use skail.Routing.Usage.Effects.{status_at}
use skail.Routing.Usage.Histories.{
  start, next, doubting, sweeping, Accounts, IsReconciled, closed_call_stays, begun-IsReconciled,
}
use skail.Routing.Usage.Once.{begun_once}
use skail.Routing.Usage.Costs.{previewed_cost_settles}

abbrev idle : UsageStore
idle = record { service = after; calls = []; failures = []; usages = [] }

abbrev call : CallStatus → ProviderCall
call s = record {
  call_id = "p1";
  assignment_id = "A";
  attempt_id = "t1";
  execution_key = "k";
  ordinal = 1;
  status = s;
  amount_usd = none;
}

abbrev calling : UsageStore
calling = record idle { calls = call started ∷ [] }

begun_ok : begin_call "p1" "n" "A" (some "k") idle ≡ ok ("p1", calling)
unfolding begin_call begin_in find_execution is_uncertain observed_cost last_ordinal find_assignment
    find_attempt run_of get find_reservation
begun_ok = refl

abbrev doubtful : UsageStore
doubtful = record idle {
  calls = call ambiguous ∷ [];
  failures = record { assignment_id = "A"; call_id = some "p1"; is_estimated = false } ∷ [];
}

doubtful_ok : mark_ambiguous "p1" calling ≡ ok doubtful
unfolding mark_ambiguous find_call set_call note_failure
doubtful_ok = refl

accounted : Accounts doubtful
accounted = record { distinct = (refl, tt); noted = ((λ e. refl), tt) }

closed_call_stays_example :
    status_at "p1" (mark_unreturned_calls_ambiguous "A" doubtful).1.calls
    ≡ status_at "p1" doubtful.calls
unfolding find_call
closed_call_stays_example =
    closed_call_stays {p = percent} "p1" (next start (sweeping "A")) accounted refl

-- while the failure is open no call begins; once it is estimated the next one may
abbrev estimated_store : UsageStore
estimated_store = record doubtful {
  failures = record { assignment_id = "A"; call_id = some "p1"; is_estimated = true } ∷ [];
}

abbrev second : ProviderCall
second = record (call started) { call_id = "p2"; execution_key = "k2"; ordinal = 2 }

blocked : begin_call "p2" "n" "A" (some "k2") doubtful ≡ err UsageError.pending_reconciliation
unfolding begin_call begin_in find_execution is_uncertain observed_cost last_ordinal find_assignment
    find_attempt run_of get find_reservation
blocked = refl

second_ok :
    begin_call "p2" "n" "A" (some "k2") estimated_store
    ≡ ok ("p2", record estimated_store { calls = call ambiguous ∷ second ∷ [] })
unfolding begin_call begin_in find_execution is_uncertain observed_cost last_ordinal find_assignment
    find_attempt run_of get find_reservation
second_ok = refl

begun-IsReconciled_example :
    All (IsReconciled after "r" estimated_store.failures) estimated_store.calls
unfolding run_of find_assignment find_attempt get
begun-IsReconciled_example =
    begun-IsReconciled {p = percent} "p2" "n" "A" (some "k2") "p2" "r"
      (record { distinct = (refl, tt); noted = ((λ e. refl), tt) }) start second_ok refl

begun_once_example : (e : UsageError) × (begin_call "p9" "n" "A" (some "k") doubtful ≡ err e)
begun_once_example =
    begun_once percent idle calling doubtful "p1" "p9" "n" "A" "k" "p1" refl
      (record { distinct = tt; noted = tt }) begun_ok (next start (doubting "p1" doubtful_ok))

abbrev row : AssignmentRow
row = assignment_row ids request chosen "assignment:attempt:t1:primary" "h"

abbrev previewed : CallReconciliationResult
previewed = record {
  assignment_id = "A";
  estimated_attempt_cost_usd = 40;
  remaining_open_calls = 1;
  settled = false;
}

previewed_ok : preview_ambiguous_call doubtful "s" "p1" ≡ ok previewed
unfolding preview_ambiguous_call reconciliation_state find_call find_assignment find_attempt run_of
    get find_failure find_reservation open_calls reconciled_cost known_cost
previewed_ok = refl

previewed_cost_settles_example : (settlement_of row true doubtful).usage.cost_usd ≡ some 40
unfolding find_assignment
previewed_cost_settles_example =
    previewed_cost_settles doubtful "s" "p1" previewed row true previewed_ok refl refl refl
