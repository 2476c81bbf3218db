-- ===== src/Routing/Assignment/Samples.antt =====
-- The data of the tests: one run with a limit of 100, one task, and one model for 40.
use skail.Prelude.{true, false, none, some, [], ◌∷◌}
use skail.Routing.Budget.Tables.{ReservationStatus}
use skail.Routing.Budget.Operations.{Percent}
use skail.Routing.Selector.Requirements.{RoutingMode, TaskRisk, RoutingRequirements}
use skail.Routing.Selector.Exclusion.{RouteCandidate}
use skail.Routing.Selector.Choice.{RouteSelection}
use skail.Routing.Assignment.Tables.{
  AssignmentRequest, RoutingSnapshot, TaskAssignment, Store, budget_reserved, route_selected,
}
use skail.Routing.Assignment.Persisting.{NewIds, assignment_row}

abbrev pub percent : Percent
percent = record { num = 80; den = 100 }

abbrev pub model : RouteCandidate
model = record {
  profile = record {
    provider = "a";
    model = "m";
    context_tokens = some 1000;
    max_output_tokens = some 100;
    supports_tools = some true;
    supports_structured_output = none;
    input_modalities = [];
    capability = some (record { coding = 60; reasoning = 50; tool_reliability = 70; latency = 20 });
    auto_eligible = true;
    input_usd_per_million = some 3;
    output_usd_per_million = some 15;
    cached_input_usd_per_million = none;
  };
  estimated_cost_usd = some 40;
  configured = true;
  healthy = true;
  enabled = true;
}

abbrev pub needs : RoutingRequirements
needs = record {
  capability_floor = some 45;
  tools_required = true;
  structured_output_required = false;
  minimum_context_tokens = 10;
  minimum_output_tokens = 10;
  modalities = [];
  role = "tester";
  risk = TaskRisk.bounded;
  mode = RoutingMode.auto;
  role_hard_min = 0;
  escalated = false;
  failed_capability_fit = none;
  excluded_models = [];
}

abbrev pub request : AssignmentRequest
request = record {
  session_id = "s";
  run_id = "r";
  task_id = "t";
  attempt_id = "t1";
  attempt_number = 1;
  catalog_revision = "c";
  requirements = needs;
  config_revision = "f";
  task_limit_usd = some 60;
  manual_model = none;
  fallback_of_assignment_id = none;
}

abbrev pub current : RoutingSnapshot
current = record {
  catalog_revision = "c";
  config_revision = "f";
  health_revision = "h";
  candidates = model ∷ [];
  is_current = true;
}

abbrev pub before : Store
before = record {
  ledger = record {
    runs = ("r", some 100) ∷ [];
    tasks = "t" ∷ [];
    reservations = [];
    usage_records = [];
    warnings = [];
  };
  attempts = record { attempt_id = "t1"; task_id = "t"; attempt_number = 1 } ∷ [];
  task_runs = ("t", "r") ∷ [];
  run_sessions = ("r", "s") ∷ [];
  assignments = [];
  batches = [];
  events = [];
}

abbrev pub ids : NewIds
ids = record { assignment_id = "A"; reservation_id = "R" }

abbrev pub chosen : RouteSelection
chosen = record {
  candidate = model;
  fit = some 50;
  included_count = 1;
  excluded_counts = [];
  binding_constraint = none;
  ranking_reasons = "cost,capability_fit,tool_reliability,latency,stable_key" ∷ [];
}

abbrev pub given : TaskAssignment
given = record {
  assignment_id = "A";
  task_id = "t";
  attempt_number = 1;
  provider = "a";
  model = "m";
  routing_mode = RoutingMode.auto;
  capability_floor = some 45;
  capability_fit = some 50;
  estimated_attempt_cost_usd = 40;
  reservation_id = "R";
  catalog_revision = "c";
}

abbrev pub after : Store
after = record before {
  ledger = record before.ledger {
    reservations =
        record {
          reservation_id = "R";
          run_id = "r";
          task_id = some "t";
          amount_usd = 40;
          status = ReservationStatus.reserved;
          idempotency_key = "assignment-reservation:A";
          purpose = "task_attempt";
        }
        ∷ [];
    warnings = ("r", false) ∷ [];
  };
  assignments = assignment_row ids request chosen "assignment:attempt:t1:primary" "h" ∷ [];
  events =
      record { run_id = "r"; sequence = 1; payload = budget_reserved 40 }
      ∷ record { run_id = "r"; sequence = 2; payload = route_selected "A" }
      ∷ [];
}
