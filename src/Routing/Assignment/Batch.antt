-- ===== src/Routing/Assignment/Batch.antt =====
-- `AssignmentService.assign_batch`: several attempts of one run, with an allowance for the lead.
use skail.Prelude.{
  ℕ, ◌+◌, String, Bool, ◌&&◌, not, Option, none, some, List, [], ◌∷◌, ◌++◌, map, str_eq, str_append,
  if◌then◌else◌, any, Result, ok, err, ◌>>=◌, ◌>>◌, raise_if,
}
use skail.Prelude.Int.{ℤ, pos, ◌-ℤ◌}
use skail.Prelude.Dict.{get, put}
use skail.Routing.Budget.Tables.{Tables, BudgetSnapshot, ReservationRequest, snapshot}
use skail.Routing.Budget.Operations.{Percent, reserve}
use skail.Routing.Selector.Exclusion.{is_none}
use skail.Routing.Selector.Choice.{RouteSelection, RouteFailure, Route, select_model}
use skail.Routing.Assignment.Tables.{
  AssignmentRequest, RoutingSnapshot, TaskAssignment, DeferredAssignment, BatchAssignmentResult,
  Store, AssignError, batch_spans_runs, batch_inputs_changed, assertion_failed, from_ledger,
  from_selector,
}
use skail.Routing.Assignment.Lookups.{validate_ownership, decision_key, with_escalation_baseline}
use skail.Routing.Assignment.Persisting.{NewIds, persist}
use skail.Routing.Assignment.Service.{task_narrowed, allows_unpriced_manual, bound_by}

pub record Selected : Type 0 where
  pub request : AssignmentRequest
  pub selection : RouteSelection
  pub health_revision : String

-- the variables of the loop over the requests
pub record Plan : Type 0 where
  pub remaining : Option ℤ
  pub selections : List Selected
  pub deferred : List String
  pub failures : List DeferredAssignment

abbrev pub minus_allowance : Option ℤ → ℕ → Option ℤ
minus_allowance none n = none
minus_allowance (some z) n = some (z -ℤ pos n)

abbrev pub initial_plan : BudgetSnapshot → ℕ → Plan
initial_plan s lead_allowance_usd = record {
  remaining = minus_allowance s.available_usd lead_allowance_usd;
  selections = [];
  deferred = [];
  failures = [];
}

abbrev pub defer : AssignmentRequest → RouteFailure → Plan → Plan
defer q f plan = record plan {
  deferred = plan.deferred ++ q.task_id ∷ [];
  failures =
      plan.failures
      ++ record {
        task_id = q.task_id;
        binding_constraint = f.binding_constraint;
        excluded_counts = f.excluded_counts;
      }
        ∷ [];
}

-- `remaining -= cost`, under the assertion that the cost is known
abbrev pub charge : Option ℤ → Option ℕ → Result AssignError (Option ℤ)
charge none cost = ok none
charge (some z) none = err assertion_failed
charge (some z) (some n) = ok (some (z -ℤ pos n))

abbrev pub select : AssignmentRequest → RouteSelection → String → Plan → Result AssignError Plan
select q s health plan = do
  remaining ← charge plan.remaining s.candidate.estimated_cost_usd
  ok (record plan {
    remaining = remaining;
    selections =
        plan.selections ++ record { request = q; selection = s; health_revision = health } ∷ [];
  })

abbrev pub add_route :
    BudgetSnapshot → AssignmentRequest → String → Route → Plan → Result AssignError Plan
add_route s q health (Route.no_qualified_model f) plan = ok (defer q f plan)
add_route s q health (Route.selected sel) plan =
    if is_none sel.candidate.estimated_cost_usd && not (allows_unpriced_manual q s)
    then ok (defer q (bound_by "price_unavailable_for_reservation") plan)
    else select q sel health plan

abbrev inputs_changed : AssignmentRequest → RoutingSnapshot → Bool
inputs_changed q r =
    not (str_eq r.catalog_revision q.catalog_revision && str_eq r.config_revision q.config_revision)

-- the body of the loop
unfoldable pub plan_one :
    Tables → BudgetSnapshot → AssignmentRequest → RoutingSnapshot → Plan → Result AssignError Plan
plan_one db s q r plan = do
  raise_if (inputs_changed q r) batch_inputs_changed
  route ← from_selector (
      select_model r.candidates q.requirements
        (task_narrowed db q 0 q.task_limit_usd plan.remaining) q.manual_model)
  add_route s q r.health_revision route plan

unfoldable pub plan_all :
    Tables
    → BudgetSnapshot
    → (AssignmentRequest → RoutingSnapshot)
    → List AssignmentRequest
    → Plan
    → Result AssignError Plan
plan_all db s candidates [] plan = ok plan
plan_all db s candidates (q ∷ requests) plan = do
  next ← plan_one db s q (candidates q) plan
  plan_all db s candidates requests next

unfoldable pub validate_all : Store → List AssignmentRequest → Result AssignError (Unit {0})
validate_all st [] = ok tt
validate_all st (q ∷ requests) = do validate_ownership st q; validate_all st requests

-- `":".join(ids)`
unfoldable pub joined : String → List AssignmentRequest → String
joined first [] = first
joined first (q ∷ requests) = str_append first (str_append ":" (joined q.attempt_id requests))

unfoldable pub batch_key : AssignmentRequest → List AssignmentRequest → String
batch_key q requests = str_append "assignment-batch:" (joined q.attempt_id requests)

-- the assignments of the selections, in order; the one with number n draws the identities `ids n`
unfoldable pub persist_all :
    Percent
    → (ℕ → NewIds)
    → ℕ
    → List Selected
    → Store
    → Result AssignError (List TaskAssignment × Store)
persist_all p ids n [] st = ok ([], st)
persist_all p ids n (x ∷ selections) st = do
  a ← persist p (ids n) x.request x.selection (decision_key x.request) x.health_revision st
  rest ← persist_all p ids (n + 1) selections a.1
  ok (a.0 ∷ rest.0, rest.1)

abbrev pub lead_request : String → String → ℕ → ReservationRequest
lead_request id run_id lead_allowance_usd = record {
  reservation_id = id;
  run_id = run_id;
  task_id = none;
  amount_usd = lead_allowance_usd;
  idempotency_key = str_append "batch-lead:" id;
  purpose = "lead_continuation";
}

-- the writes behind the loop
abbrev pub commit_batch :
    Percent
    → String
    → (ℕ → NewIds)
    → String
    → String
    → ℕ
    → List AssignmentRequest
    → Store
    → Plan
    → Result AssignError (BatchAssignmentResult × Store)
commit_batch p lead_id ids key run_id lead_allowance_usd requests st plan = elim plan.selections [
  | [] ↦ ok (
    record {
      assignments = [];
      deferred_task_ids = map (λ (q : AssignmentRequest). q.task_id) requests;
      lead_reservation_id = none;
      failures = plan.failures;
    },
    st,
  )
  | x ∷ selections ↦ do
    lead ← from_ledger (reserve p (lead_request lead_id run_id lead_allowance_usd) none 0 st.ledger)
    done ← persist_all p ids 0 (x ∷ selections) (record st { ledger = lead.1 })
    let result : BatchAssignmentResult = record {
      assignments = done.0;
      deferred_task_ids = plan.deferred;
      lead_reservation_id = some lead_id;
      failures = plan.failures;
    }
    ok (result, record done.1 { batches = put done.1.batches key result })
]

-- `assign_batch`
abbrev pub other_run : String → AssignmentRequest → Bool
other_run run_id q = not (str_eq q.run_id run_id)

unfoldable pub decide_batch :
    Percent
    → String
    → (ℕ → NewIds)
    → AssignmentRequest
    → List AssignmentRequest
    → (AssignmentRequest → RoutingSnapshot)
    → ℕ
    → Store
    → Result AssignError (BatchAssignmentResult × Store)
decide_batch p lead_id ids q requests candidates lead_allowance_usd st = do
  s ← from_ledger (snapshot st.ledger q.run_id)
  plan ←
      plan_all st.ledger s candidates (map (with_escalation_baseline st) (q ∷ requests))
        (initial_plan s lead_allowance_usd)
  commit_batch p lead_id ids (batch_key q requests) q.run_id lead_allowance_usd (q ∷ requests) st
      plan

abbrev pub or_replay :
    Option BatchAssignmentResult
    → Store
    → Result AssignError (BatchAssignmentResult × Store)
    → Result AssignError (BatchAssignmentResult × Store)
or_replay none st decided = decided
or_replay (some result) st decided = ok (result, st)

unfoldable pub assign_batch :
    Percent
    → String
    → (ℕ → NewIds)
    → List AssignmentRequest
    → (AssignmentRequest → RoutingSnapshot)
    → ℕ
    → Store
    → Result AssignError (BatchAssignmentResult × Store)
assign_batch p lead_id ids [] candidates lead_allowance_usd st = ok (
  record { assignments = []; deferred_task_ids = []; lead_reservation_id = none; failures = [] },
  st,
)
assign_batch p lead_id ids (q ∷ requests) candidates lead_allowance_usd st = do
  raise_if (any (other_run q.run_id) (q ∷ requests)) batch_spans_runs
  validate_all st (q ∷ requests)
  or_replay (get st.batches (batch_key q requests)) st
      (decide_batch p lead_id ids q requests candidates lead_allowance_usd st)
