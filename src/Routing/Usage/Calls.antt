-- ===== src/Routing/Usage/Calls.antt =====
-- `begin_call`, and the marks that a call gets.
use skail.Prelude.{
  ℕ, ◌+◌, String, Bool, false, ◌&&◌, ◌||◌, not, Option, none, some, List, [], ◌∷◌, ◌++◌, str_eq,
  if◌then◌else◌, leb, max, any, sum_where, keep, length, Result, ok, err, ◌>>◌, raise_if,
}
use skail.Prelude.Dict.{get}
use skail.Routing.Budget.Tables.{Reservation, reserved, status_eq}
use skail.Routing.Budget.Operations.{find_reservation}
use skail.Routing.Assignment.Tables.{AssignmentRow, Store}
use skail.Routing.Assignment.Lookups.{find_assignment}
use skail.Routing.Assignment.Persisting.{cost_or_zero}
use skail.Routing.Usage.Tables.{
  started, completed, ambiguous, rejected, call_eq, ProviderCall, Failure, UsageStore, UsageError,
  unknown_row, replay_blocked, pending_reconciliation, budget_exhausted, no_funded_reservation,
  integrity_error, not_reclassified, not_definitive, run_of, is_run, find_call, set_call, is_call,
}

-- `WHERE assignment_id=? AND execution_key=?`
unfoldable pub find_execution : String → String → List ProviderCall → Option ProviderCall
find_execution assignment_id key [] = none
find_execution assignment_id key (c ∷ calls) =
    if str_eq c.assignment_id assignment_id && str_eq c.execution_key key
    then some c
    else find_execution assignment_id key calls

-- an open failure of the run
abbrev pub is_open_in : Store → String → Failure → Bool
is_open_in st run_id f = not f.is_estimated && is_run run_id (run_of st f.assignment_id)

unfoldable pub is_uncertain : UsageStore → String → Bool
is_uncertain u run_id = any (is_open_in u.service run_id) u.failures

-- the cost of the run's completed calls
unfoldable pub observed_cost : UsageStore → String → ℕ
observed_cost u run_id =
    sum_where (λ c. cost_or_zero c.amount_usd)
      (λ c. call_eq c.status completed && is_run run_id (run_of u.service c.assignment_id)) u.calls

abbrev pub reaches : Option (Option ℕ) → ℕ → Bool
reaches none cost = false
reaches (some none) cost = false
reaches (some (some limit)) cost = leb limit cost

abbrev is_reserved : Option Reservation → Bool
is_reserved none = false
is_reserved (some r) = status_eq r.status reserved

-- `COALESCE(MAX(ordinal),0)`
unfoldable pub last_ordinal : String → List ProviderCall → ℕ
last_ordinal assignment_id [] = 0
last_ordinal assignment_id (c ∷ calls) =
    let rest = last_ordinal assignment_id calls in
    if str_eq c.assignment_id assignment_id then max c.ordinal rest else rest

abbrev pub blocked_replay : Option ProviderCall → Result UsageError (Unit {0})
blocked_replay none = ok tt
blocked_replay (some c) = err (replay_blocked c.status)

abbrev pub new_call : String → AssignmentRow → String → List ProviderCall → ProviderCall
new_call call_id a key calls = record {
  call_id = call_id;
  assignment_id = a.assignment_id;
  attempt_id = a.attempt_id;
  execution_key = key;
  ordinal = last_ordinal a.assignment_id calls + 1;
  status = started;
  amount_usd = none;
}

abbrev pub has_call : String → List ProviderCall → Bool
has_call id = any (λ (c : ProviderCall). str_eq c.call_id id)

abbrev pub is_exhausted : UsageStore → String → Bool
is_exhausted u run_id = reaches (get u.service.ledger.runs run_id) (observed_cost u run_id)

abbrev pub is_unfunded : UsageStore → AssignmentRow → Bool
is_unfunded u a = not (
    is_reserved
      (find_reservation a.payload.assignment.reservation_id u.service.ledger.reservations))

-- the part of `begin_call` for an assignment on file and its run
unfoldable pub begin_in :
    String → String → AssignmentRow → String → UsageStore → Result UsageError (String × UsageStore)
begin_in call_id key a run_id u = do
  blocked_replay (find_execution a.assignment_id key u.calls)
  raise_if (is_uncertain u run_id) pending_reconciliation
  raise_if (is_exhausted u run_id) budget_exhausted
  raise_if (is_unfunded u a) no_funded_reservation
  raise_if (has_call call_id u.calls) integrity_error
  ok (call_id, record u { calls = u.calls ++ new_call call_id a key u.calls ∷ [] })

-- `execution_key or f"new:{uuid4()}"`: an empty text counts as no key
abbrev pub or_new : Option String → String → String
or_new none new_key = new_key
or_new (some key) new_key = if str_eq key "" then new_key else key

abbrev begin_row :
    String
    → String
    → UsageStore
    → Option AssignmentRow
    → Option String
    → String
    → Result UsageError (String × UsageStore)
begin_row call_id key u (some a) (some run_id) id = begin_in call_id key a run_id u
begin_row call_id key u _ _ id = err (unknown_row id)

-- `begin_call`, with the identities that it may draw
unfoldable pub begin_call :
    String → String → String → Option String → UsageStore → Result UsageError (String × UsageStore)
begin_call call_id new_key assignment_id execution_key u =
    begin_row call_id (or_new execution_key new_key) u
      (find_assignment assignment_id u.service.assignments) (run_of u.service assignment_id)
      assignment_id

-- `mark_call_succeeded`
unfoldable pub mark_call_succeeded : String → UsageStore → Result UsageError UsageStore
mark_call_succeeded call_id u = elim (find_call call_id u.calls) [
  | none ↦ err (unknown_row call_id)
  | some c ↦
      if call_eq c.status completed
      then ok u
      else if not (call_eq c.status started)
      then err not_reclassified
      else ok (record u { calls = set_call call_id completed c.amount_usd u.calls })
]

-- `INSERT OR IGNORE` under `UNIQUE(assignment_id, call_id)`
abbrev pub is_failure_of : String → String → Failure → Bool
is_failure_of assignment_id call_id f =
    str_eq f.assignment_id assignment_id && is_call call_id f.call_id

unfoldable pub note_failure : String → String → List Failure → List Failure
note_failure assignment_id call_id failures =
    if any (is_failure_of assignment_id call_id) failures
    then failures
    else failures
      ++ record { assignment_id = assignment_id; call_id = some call_id; is_estimated = false } ∷ []

abbrev pub made_ambiguous : ProviderCall → UsageStore → UsageStore
made_ambiguous c u = record u {
  calls = set_call c.call_id ambiguous c.amount_usd u.calls;
  failures = note_failure c.assignment_id c.call_id u.failures;
}

-- `mark_ambiguous`
unfoldable pub mark_ambiguous : String → UsageStore → Result UsageError UsageStore
mark_ambiguous call_id u = elim (find_call call_id u.calls) [
  | none ↦ err (unknown_row call_id)
  | some c ↦
      if call_eq c.status completed || call_eq c.status rejected
      then ok u
      else ok (made_ambiguous c u)
]

-- `mark_rejected`, with `error.request_rejected`
unfoldable pub mark_rejected : String → Bool → UsageStore → Result UsageError UsageStore
mark_rejected call_id request_rejected u =
    if not request_rejected then err not_definitive else elim (find_call call_id u.calls) [
      | none ↦ err (unknown_row call_id)
      | some c ↦
          if call_eq c.status rejected
          then ok u
          else if not (call_eq c.status started)
          then err not_reclassified
          else ok (record u { calls = set_call call_id rejected c.amount_usd u.calls })
    ]

-- `mark_unreturned_calls_ambiguous`: the rows are selected first, and then marked one by one
abbrev pub is_unreturned : String → ProviderCall → Bool
is_unreturned assignment_id c = str_eq c.assignment_id assignment_id && call_eq c.status started

unfoldable pub mark_each : List ProviderCall → UsageStore → UsageStore
mark_each [] u = u
mark_each (c ∷ rows) u = mark_each rows (made_ambiguous c u)

unfoldable pub mark_unreturned_calls_ambiguous : String → UsageStore → ℕ × UsageStore
mark_unreturned_calls_ambiguous assignment_id u =
    let rows = keep (is_unreturned assignment_id) u.calls in (length rows, mark_each rows u)
