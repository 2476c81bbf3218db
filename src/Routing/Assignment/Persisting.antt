-- ===== src/Routing/Assignment/Persisting.antt =====
-- `AssignmentService._persist` and `_release_fallback_source`: the writes of an assignment.
use skail.Prelude.{
  ℕ, ◌+◌, String, Bool, ◌||◌, not, Option, none, some, List, [], ◌∷◌, ◌++◌, str_eq, str_append,
  if◌then◌else◌, max, any, Result, ok, err, ◌>>=◌,
}
use skail.Routing.Budget.Tables.{released, ReservationRequest, status_eq, reserved}
use skail.Routing.Budget.Operations.{Percent, reserve, set_status, update_warning}
use skail.Routing.Selector.Exclusion.{RouteCandidate}
use skail.Routing.Selector.Choice.{RouteSelection}
use skail.Routing.Assignment.Tables.{
  AssignmentRequest, TaskAssignment, AssignmentRow, AttemptRow, Event, EventPayload,
  budget_reserved, budget_warned, budget_released, route_selected, route_fallback, Store,
  AssignError, assignment_conflict, from_ledger,
}
use skail.Routing.Assignment.Lookups.{FallbackSource}

-- the identities that `_persist` draws
pub record NewIds : Type 0 where
  pub assignment_id : String
  pub reservation_id : String

-- `candidate.estimated_cost_usd or Decimal("0")`
abbrev pub cost_or_zero : Option ℕ → ℕ
cost_or_zero none = 0
cost_or_zero (some n) = n

abbrev purpose_of : Option ℕ → String
purpose_of none = "unpriced_manual"
purpose_of (some n) = "task_attempt"

abbrev pub reservation_request : NewIds → AssignmentRequest → RouteCandidate → ReservationRequest
reservation_request ids q c = record {
  reservation_id = ids.reservation_id;
  run_id = q.run_id;
  task_id = some q.task_id;
  amount_usd = cost_or_zero c.estimated_cost_usd;
  idempotency_key = str_append "assignment-reservation:" ids.assignment_id;
  purpose = purpose_of c.estimated_cost_usd;
}

abbrev pub task_assignment : NewIds → AssignmentRequest → RouteSelection → TaskAssignment
task_assignment ids q s = record {
  assignment_id = ids.assignment_id;
  task_id = q.task_id;
  attempt_number = q.attempt_number;
  provider = s.candidate.profile.provider;
  model = s.candidate.profile.model;
  routing_mode = q.requirements.mode;
  capability_floor = q.requirements.capability_floor;
  capability_fit = if s.candidate.profile.auto_eligible then s.fit else none;
  estimated_attempt_cost_usd = cost_or_zero s.candidate.estimated_cost_usd;
  reservation_id = ids.reservation_id;
  catalog_revision = q.catalog_revision;
}

abbrev pub assignment_row :
    NewIds → AssignmentRequest → RouteSelection → String → String → AssignmentRow
assignment_row ids q s key health = record {
  assignment_id = ids.assignment_id;
  attempt_id = q.attempt_id;
  provider = s.candidate.profile.provider;
  model = s.candidate.profile.model;
  estimated_cost_usd = cost_or_zero s.candidate.estimated_cost_usd;
  idempotency_key = key;
  payload = record {
    assignment = task_assignment ids q s;
    attempt_id = q.attempt_id;
    health_revision = health;
    fallback_of_assignment_id = q.fallback_of_assignment_id;
    pricing_evidence = record {
      input_usd_per_million = s.candidate.profile.input_usd_per_million;
      output_usd_per_million = s.candidate.profile.output_usd_per_million;
      cached_input_usd_per_million = s.candidate.profile.cached_input_usd_per_million;
    };
  };
}

-- `create_assignment` of the journal. A row on file is never equal to the new one in all its
-- columns, since the identity in it is new, so that a violated constraint is always a conflict.
unfoldable pub create_assignment :
    AssignmentRow → List AttemptRow → List AssignmentRow → Result AssignError (List AssignmentRow)
create_assignment row attempts rows =
    if any
        (λ (a : AssignmentRow).
          str_eq a.assignment_id row.assignment_id || str_eq a.idempotency_key row.idempotency_key)
        rows
      || not (any (λ (a : AttemptRow). str_eq a.attempt_id row.attempt_id) attempts)
    then err assignment_conflict
    else ok (rows ++ row ∷ [])

-- `SELECT COALESCE(MAX(sequence),0) FROM events WHERE run_id=?`
unfoldable pub last_sequence : String → List Event → ℕ
last_sequence run_id [] = 0
last_sequence run_id (e ∷ events) =
    let rest = last_sequence run_id events in
    if str_eq e.run_id run_id then max e.sequence rest else rest

abbrev event : String → ℕ → EventPayload → Event
event run_id sequence payload = record { run_id = run_id; sequence = sequence; payload = payload }

-- `enumerate(events, start=1)`
unfoldable pub numbered : String → ℕ → List EventPayload → List Event
numbered run_id last [] = []
numbered run_id last (e ∷ payloads) =
    event run_id (last + 1) e ∷ numbered run_id (last + 1) payloads

unfoldable pub append_events : String → List EventPayload → List Event → List Event
append_events run_id payloads events =
    events ++ numbered run_id (last_sequence run_id events) payloads

abbrev route_event : AssignmentRequest → String → Option String → EventPayload
route_event q id none = route_selected id
route_event q id (some source) = route_fallback id

abbrev pub selection_events : AssignmentRequest → TaskAssignment → Bool → List EventPayload
selection_events q a warning_crossed =
    let route = route_event q a.assignment_id q.fallback_of_assignment_id in
    budget_reserved a.estimated_attempt_cost_usd
    ∷ (if warning_crossed
        then budget_warned a.estimated_attempt_cost_usd ∷ route ∷ []
        else route ∷ [])

-- `_persist`
unfoldable pub persist :
    Percent
    → NewIds
    → AssignmentRequest
    → RouteSelection
    → String
    → String
    → Store
    → Result AssignError (TaskAssignment × Store)
persist p ids q s key health st = do
  r ← from_ledger (reserve p (reservation_request ids q s.candidate) q.task_limit_usd 0 st.ledger)
  rows ← create_assignment (assignment_row ids q s key health) st.attempts st.assignments
  ok (
    task_assignment ids q s,
    record st {
      ledger = r.1;
      assignments = rows;
      events =
          append_events q.run_id (selection_events q (task_assignment ids q s) r.0.warning_crossed)
            st.events;
    },
  )

-- `_release_fallback_source`
unfoldable pub release_source :
    Percent → AssignmentRequest → FallbackSource → Store → Result AssignError Store
release_source p q source st = if not (status_eq source.status reserved) then ok st else do
  w ← from_ledger (
      update_warning p
        (record st.ledger {
          reservations = set_status source.reservation_id released st.ledger.reservations;
        })
        q.run_id)
  ok (record st {
    ledger = w.0;
    events = append_events q.run_id (budget_released source.amount_usd ∷ []) st.events;
  })

abbrev pub release_if :
    Percent → AssignmentRequest → Option FallbackSource → Store → Result AssignError Store
release_if p q none st = ok st
release_if p q (some source) st = release_source p q source st
