-- ===== src/Routing/Assignment/Lookups.antt =====
-- `AssignmentService`: the queries that come before a choice.
use skail.Prelude.{
  ℕ, String, Bool, true, false, ◌&&◌, not, Option, none, some, List, [], ◌∷◌, str_eq, str_append,
  if◌then◌else◌, ◌==◌, Result, ok, err, raise_if,
}
use skail.Prelude.Dict.{get}
use skail.Routing.Budget.Tables.{ReservationStatus, Reservation}
use skail.Routing.Budget.Operations.{find_reservation}
use skail.Routing.Assignment.Tables.{
  AssignmentRequest, TaskAssignment, AssignmentRow, AttemptRow, Store, AssignError,
  not_one_persisted_attempt, fallback_source_foreign, fallback_reservation_missing,
}

-- `FROM attempts WHERE attempt_id=?`
unfoldable pub find_attempt : String → List AttemptRow → Option AttemptRow
find_attempt id [] = none
find_attempt id (a ∷ rows) = if str_eq a.attempt_id id then some a else find_attempt id rows

-- a looked-up column equals what the request says; a join without a match has no row
abbrev is_value : Option String → String → Bool
is_value none s = false
is_value (some t) s = str_eq t s

abbrev describes : Store → AssignmentRequest → Option AttemptRow → Bool
describes st q none = false
describes st q (some a) =
    a.attempt_number == q.attempt_number
    && (str_eq a.task_id q.task_id
        && (is_value (get st.task_runs q.task_id) q.run_id
            && is_value (get st.run_sessions q.run_id) q.session_id))

-- `_validate_ownership`
unfoldable pub validate_ownership : Store → AssignmentRequest → Result AssignError (Unit {0})
validate_ownership st q =
    raise_if (not (describes st q (find_attempt q.attempt_id st.attempts)))
      not_one_persisted_attempt

-- `_decision_key`
abbrev key_suffix : Option String → String
key_suffix none = ":primary"
key_suffix (some source) = str_append ":fallback:" source

unfoldable pub decision_key : AssignmentRequest → String
decision_key q =
    str_append "assignment:attempt:"
      (str_append q.attempt_id (key_suffix q.fallback_of_assignment_id))

-- `FROM assignments WHERE idempotency_key=?`, and `_existing_assignment`
unfoldable pub find_row : String → List AssignmentRow → Option AssignmentRow
find_row key [] = none
find_row key (a ∷ rows) = if str_eq a.idempotency_key key then some a else find_row key rows

abbrev pub stored : Option AssignmentRow → Option TaskAssignment
stored none = none
stored (some a) = some a.payload.assignment

unfoldable pub existing_assignment : Store → String → Option TaskAssignment
existing_assignment st key = stored (find_row key st.assignments)

-- the last assignment of the first attempt of a task: `p.task_id=? AND p.attempt_number=1 ORDER BY
-- a.rowid DESC LIMIT 1`
abbrev is_first_of : String → Option AttemptRow → Bool
is_first_of task_id none = false
is_first_of task_id (some p) = str_eq p.task_id task_id && p.attempt_number == 1

unfoldable pub prior_fit : List AttemptRow → String → List AssignmentRow → Option ℕ → Option ℕ
prior_fit attempts task_id [] fit = fit
prior_fit attempts task_id (a ∷ rows) fit = prior_fit attempts task_id rows (
    if is_first_of task_id (find_attempt a.attempt_id attempts)
    then a.payload.assignment.capability_fit
    else fit)

-- `_with_escalation_baseline`
unfoldable pub with_escalation_baseline : Store → AssignmentRequest → AssignmentRequest
with_escalation_baseline st q = if not (q.attempt_number == 2) then q else record q {
  requirements = record q.requirements {
    escalated = true;
    failed_capability_fit = prior_fit st.attempts q.task_id st.assignments none;
  };
}

-- `FROM assignments WHERE assignment_id=?`
unfoldable pub find_assignment : String → List AssignmentRow → Option AssignmentRow
find_assignment id [] = none
find_assignment id (a ∷ rows) =
    if str_eq a.assignment_id id then some a else find_assignment id rows

-- (model, reservation_id, amount_usd, status)
pub record FallbackSource : Type 0 where
  pub model : String
  pub reservation_id : String
  pub amount_usd : ℕ
  pub status : ReservationStatus

abbrev pub with_reservation :
    String → String → Option Reservation → Result AssignError (Option FallbackSource)
with_reservation model id none = err fallback_reservation_missing
with_reservation model id (some r) = ok (
    some
      (record { model = model; reservation_id = id; amount_usd = r.amount_usd; status = r.status }))

abbrev pub source_of :
    Store → AssignmentRequest → Option AssignmentRow → Result AssignError (Option FallbackSource)
source_of st q none = err fallback_source_foreign
source_of st q (some a) =
    if not (str_eq a.attempt_id q.attempt_id)
    then err fallback_source_foreign
    else with_reservation a.model a.payload.assignment.reservation_id
        (find_reservation a.payload.assignment.reservation_id st.ledger.reservations)

-- `_fallback_source`, or None for a request that is not a fallback
unfoldable pub fallback_source :
    Store → AssignmentRequest → Result AssignError (Option FallbackSource)
fallback_source st q = elim q.fallback_of_assignment_id [
  | none ↦ ok none
  | some id ↦ source_of st q (find_assignment id st.assignments)
]
