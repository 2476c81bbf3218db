-- ===== src/Routing/Usage/Reconciling.antt =====
-- `_reconciliation_state`, `preview_ambiguous_call` and `reconcile_ambiguous_call`.
use skail.Prelude.{
  ℕ, ◌+◌, String, Bool, true, false, ◌&&◌, ◌||◌, not, Option, none, some, List, [], ◌∷◌, str_eq,
  ◌==◌, if◌then◌else◌, max, keep, length, Result, ok, err, ◌>>=◌,
}
use skail.Prelude.Dict.{get}
use skail.Routing.Budget.Tables.{Reservation, settled, status_eq}
use skail.Routing.Budget.Operations.{Percent, find_reservation}
use skail.Routing.Selector.Exclusion.{is_none}
use skail.Routing.Assignment.Tables.{AssignmentRow, Store}
use skail.Routing.Assignment.Lookups.{find_assignment}
use skail.Routing.Usage.Tables.{
  started, ambiguous, call_eq, ProviderCall, Failure, UsageStore, UsageError, unknown_row,
  not_ambiguous, no_failure_record, no_priced_estimate, reservation_missing,
  settled_without_reconciliation, settlement_failed, run_of, is_call, find_call, find_failure,
}
use skail.Routing.Usage.Settling.{
  of_assignment, known_cost, Settled, settled_as, settlement_refused, settle_row,
}

pub record CallReconciliationResult : Type 0 where
  pub assignment_id : String
  pub estimated_attempt_cost_usd : ℕ
  pub remaining_open_calls : ℕ
  pub settled : Bool

-- `COALESCE(f.status,'open')!='estimated'`
abbrev is_unresolved : Option Failure → Bool
is_unresolved none = true
is_unresolved (some f) = not f.is_estimated

abbrev is_open_call : String → List Failure → ProviderCall → Bool
is_open_call assignment_id failures c =
    str_eq c.assignment_id assignment_id
    && (call_eq c.status started
        || call_eq c.status ambiguous && is_unresolved (find_failure c.call_id failures))

abbrev is_attempt_failure : String → Failure → Bool
is_attempt_failure assignment_id f =
    str_eq f.assignment_id assignment_id && (is_absent f.call_id && not f.is_estimated)
  where
    is_absent : Option String → Bool
    is_absent none = true
    is_absent (some c) = false

unfoldable pub open_calls : String → UsageStore → ℕ
open_calls assignment_id u =
    length (keep (is_open_call assignment_id u.failures) u.calls)
    + length (keep (is_attempt_failure assignment_id) u.failures)

-- `r.session_id=?`
abbrev pub session_of : Store → Option String → Option String
session_of st none = none
session_of st (some run_id) = get st.run_sessions run_id

abbrev pub is_text : Option String → String → Bool
is_text none s = false
is_text (some t) s = str_eq t s

abbrev pub unpriced : AssignmentRow → Bool
unpriced a =
    a.estimated_cost_usd == 0
    && (is_none a.payload.pricing_evidence.input_usd_per_million
        || is_none a.payload.pricing_evidence.output_usd_per_million)

-- `max(frozen_cost, known_cost)`
unfoldable pub reconciled_cost : AssignmentRow → UsageStore → ℕ
reconciled_cost a u =
    max a.estimated_cost_usd
      (known_cost a.payload.pricing_evidence (keep (of_assignment a.assignment_id) u.usages))

abbrev pub result_of :
    AssignmentRow
    → UsageStore
    → Failure
    → Option Reservation
    → Result UsageError (CallReconciliationResult × Bool)
result_of a u f none = err reservation_missing
result_of a u f (some r) = ok (
  record {
    assignment_id = a.assignment_id;
    estimated_attempt_cost_usd = reconciled_cost a u;
    remaining_open_calls = open_calls a.assignment_id u;
    settled = status_eq r.status settled;
  },
  f.is_estimated,
)

abbrev pub state_of_failure :
    AssignmentRow
    → UsageStore
    → Option Failure
    → Result UsageError (CallReconciliationResult × Bool)
state_of_failure a u none = err no_failure_record
state_of_failure a u (some f) =
    if unpriced a
    then err no_priced_estimate
    else result_of a u f
        (find_reservation a.payload.assignment.reservation_id u.service.ledger.reservations)

abbrev pub state_of_row :
    UsageStore
    → String
    → ProviderCall
    → Option AssignmentRow
    → Result UsageError (CallReconciliationResult × Bool)
state_of_row u session_id c none = err (unknown_row c.call_id)
state_of_row u session_id c (some a) =
    if not (is_text (session_of u.service (run_of u.service a.assignment_id)) session_id)
    then err (unknown_row c.call_id)
    else if not (call_eq c.status ambiguous)
    then err not_ambiguous
    else state_of_failure a u (find_failure c.call_id u.failures)

-- `_reconciliation_state`: the result, and whether the failure's status is "estimated"
unfoldable pub reconciliation_state :
    UsageStore → String → String → Result UsageError (CallReconciliationResult × Bool)
reconciliation_state u session_id call_id = elim (find_call call_id u.calls) [
  | none ↦ err (unknown_row call_id)
  | some c ↦ state_of_row u session_id c (find_assignment c.assignment_id u.service.assignments)
]

-- `preview_ambiguous_call`
unfoldable pub preview_ambiguous_call :
    UsageStore → String → String → Result UsageError CallReconciliationResult
preview_ambiguous_call u session_id call_id = do
  r ← reconciliation_state u session_id call_id
  ok r.0

-- `SET status='estimated' WHERE call_id=? AND status='open'`
unfoldable pub set_estimated : String → List Failure → List Failure
set_estimated call_id [] = []
set_estimated call_id (f ∷ failures) =
    (if is_call call_id f.call_id then record f { is_estimated = true } else f)
    ∷ set_estimated call_id failures

abbrev pub settled_or_raise : Settled → Result UsageError UsageStore
settled_or_raise (settled_as u) = ok u
settled_or_raise (settlement_refused u) = err settlement_failed

abbrev pub settle_assignment : Percent → String → UsageStore → Result UsageError UsageStore
settle_assignment p id u = elim (find_assignment id u.service.assignments) [
  | none ↦ err (unknown_row id)
  | some a ↦ settled_or_raise (settle_row p a true u)
]

-- the settlement behind the last open call, and the state that it leaves
unfoldable pub settle_last :
    Percent
    → String
    → String
    → String
    → UsageStore
    → Result UsageError (CallReconciliationResult × UsageStore)
settle_last p session_id call_id assignment_id u = do
  u' ← settle_assignment p assignment_id u
  last ← reconciliation_state u' session_id call_id
  ok (last.0, u')

-- what follows once the call's failure is estimated
unfoldable pub resolve :
    Percent
    → String
    → String
    → UsageStore
    → Result UsageError (CallReconciliationResult × UsageStore)
resolve p session_id call_id u = do
  now ← reconciliation_state u session_id call_id
  (if not (now.0.remaining_open_calls == 0)
      then ok (now.0, u)
      else settle_last p session_id call_id now.0.assignment_id u)

-- `reconcile_ambiguous_call`; a refused settlement is rolled back with the rest
unfoldable pub reconcile_ambiguous_call :
    Percent
    → String
    → String
    → UsageStore
    → Result UsageError (CallReconciliationResult × UsageStore)
reconcile_ambiguous_call p session_id call_id u = do
  seen ← reconciliation_state u session_id call_id
  (if seen.0.settled
      then (if not seen.1 then err settled_without_reconciliation else ok (seen.0, u))
      else resolve p session_id call_id (record u { failures = set_estimated call_id u.failures }))
