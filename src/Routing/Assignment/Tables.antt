-- ===== src/Routing/Assignment/Tables.antt =====
-- src/skail/routing/assignment.py, src/skail/domain/routing.py: requests, assignments and the
-- tables that the service reads and writes (src/skail/sessions/schema.py).
use skail.Prelude.{ℕ, String, Bool, Option, List, Result, err, ok}
use skail.Prelude.Dict.{Dict}
use skail.Routing.Budget.Tables.{Tables, LedgerError}
use skail.Routing.Selector.Requirements.{RoutingMode, Key, RoutingRequirements}
use skail.Routing.Selector.Exclusion.{RouteCandidate}
use skail.Routing.Selector.Choice.{RouteFailure, SelectorError}

pub record AssignmentRequest : Type 0 where
  pub session_id : String
  pub run_id : String
  pub task_id : String
  pub attempt_id : String
  pub attempt_number : ℕ
  pub catalog_revision : String
  pub requirements : RoutingRequirements
  -- `config_revision(config_snapshot)`
  pub config_revision : String
  pub task_limit_usd : Option ℕ
  pub manual_model : Option Key
  pub fallback_of_assignment_id : Option String

pub record RoutingSnapshot : Type 0 where
  pub catalog_revision : String
  pub config_revision : String
  pub health_revision : String
  pub candidates : List RouteCandidate
  -- the answer of `snapshot_is_current`
  pub is_current : Bool

pub record TaskAssignment : Type 0 where
  pub assignment_id : String
  pub task_id : String
  pub attempt_number : ℕ
  pub provider : String
  pub model : String
  pub routing_mode : RoutingMode
  pub capability_floor : Option ℕ
  pub capability_fit : Option ℕ
  pub estimated_attempt_cost_usd : ℕ
  pub reservation_id : String
  pub catalog_revision : String

-- `payload["pricing_evidence"]`
pub record PricingEvidence : Type 0 where
  pub input_usd_per_million : Option ℕ
  pub output_usd_per_million : Option ℕ
  pub cached_input_usd_per_million : Option ℕ

pub record Payload : Type 0 where
  pub assignment : TaskAssignment
  pub attempt_id : String
  pub health_revision : String
  pub fallback_of_assignment_id : Option String
  pub pricing_evidence : PricingEvidence

-- a row of `assignments`
pub record AssignmentRow : Type 0 where
  pub assignment_id : String
  pub attempt_id : String
  pub provider : String
  pub model : String
  pub estimated_cost_usd : ℕ
  pub idempotency_key : String
  pub payload : Payload

-- a row of `attempts`
pub record AttemptRow : Type 0 where
  pub attempt_id : String
  pub task_id : String
  pub attempt_number : ℕ

pub data EventPayload : Type 0 where
  budget_reserved budget_warned budget_released : ℕ → EventPayload
  route_selected route_fallback : String → EventPayload

-- a row of `events`
pub record Event : Type 0 where
  pub run_id : String
  pub sequence : ℕ
  pub payload : EventPayload

pub record DeferredAssignment : Type 0 where
  pub task_id : String
  pub binding_constraint : Option String
  pub excluded_counts : Dict ℕ

pub record BatchAssignmentResult : Type 0 where
  pub assignments : List TaskAssignment
  pub deferred_task_ids : List String
  pub lead_reservation_id : Option String
  pub failures : List DeferredAssignment

-- `task_runs` is the column `run_id` of `tasks`, `run_sessions` the column `session_id` of `runs`,
-- `batches` the table `assignment_batches`.
pub record Store : Type 0 where
  pub ledger : Tables
  pub attempts : List AttemptRow
  pub task_runs : Dict String
  pub run_sessions : Dict String
  pub assignments : List AssignmentRow
  pub batches : Dict BatchAssignmentResult
  pub events : List Event

pub data AssignError : Type 0 where
  stale_routing_snapshot : AssignError
  not_one_persisted_attempt : AssignError
  fallback_source_foreign fallback_reservation_missing : AssignError
  batch_spans_runs batch_inputs_changed : AssignError
  assignment_conflict : AssignError
  assertion_failed : AssignError
  ledger_error : LedgerError → AssignError
  selector_error : SelectorError → AssignError

-- `TaskAssignment | RouteFailure`
pub data Outcome : Type 0 where
  assigned : TaskAssignment → Outcome
  failed : RouteFailure → Outcome

-- An exception of the ledger, or of the selector, passes through.
abbrev pub from_ledger {ℓ} : {A : Type ℓ} → Result LedgerError A → Result AssignError A
from_ledger (err e) = err (ledger_error e)
from_ledger (ok a) = ok a

abbrev pub from_selector {ℓ} : {A : Type ℓ} → Result SelectorError A → Result AssignError A
from_selector (err e) = err (selector_error e)
from_selector (ok a) = ok a
