-- ===== src/Routing/Assignment/Tests.antt =====
-- The service at single inputs, and the theorems at concrete inputs.
use skail.Prelude.{ℕ, zero, suc, ◌+◌, ◌≤◌, ◌≡◌, refl, arith, none, some, [], ◌∷◌, ok, ◌⊎◌}
use skail.Prelude.Int.{pos, ◌-ℤ◌, ◌+ℤ◌}
use skail.Prelude.Dict.{get, put, bump}
use skail.Prelude.Sets.{contains}
use skail.Prelude.Order.{lex, sorted, least}
use skail.Routing.Budget.Tables.{
  snapshot, snapshot_of, reserved_usd, actual_usd, estimated_usd, task_committed_usd, task_usage,
  task_reserved,
}
use skail.Routing.Budget.Operations.{
  is_above, update_warning, find_key, admits_row, create_reservation, reserve_new, reserve,
}
use skail.Routing.Budget.Rows.{committed}
use skail.Routing.Budget.Limits.{IsWithin}
use skail.Routing.Selector.Exclusion.{
  exclusion_reason, support_reason, capability_reason, price_reason, capability_fit,
}
use skail.Routing.Selector.Choice.{note_candidate, tally, choose, rank, most_common, select_model}
use skail.Routing.Assignment.Tables.{RoutingSnapshot, Store, BatchAssignmentResult, assigned}
use skail.Routing.Assignment.Lookups.{
  find_attempt, validate_ownership, decision_key, find_row, existing_assignment,
  with_escalation_baseline, fallback_source,
}
use skail.Routing.Assignment.Persisting.{
  create_assignment, last_sequence, numbered, append_events, persist,
}
use skail.Routing.Assignment.Service.{
  available_for, commit, assign_new, assign_once, assign_from, assign,
}
use skail.Routing.Assignment.Replays.{assign_once_idempotent}
use skail.Routing.Assignment.Retries.{IsFirstFresh, assign-IsFirstFresh}
use skail.Routing.Assignment.Batch.{
  Plan, initial_plan, plan_one, plan_all, validate_all, joined, batch_key, decide_batch,
  assign_batch,
}
use skail.Routing.Assignment.Funding.{planned_cost, plan_all-fits}
use skail.Routing.Assignment.Histories.{IsSound, assigning, start, next, ServiceHistory-IsSound}
use skail.Routing.Assignment.Charges.{assign_once_charges}
use skail.Routing.Assignment.Samples.{percent, request, current, before, ids, chosen, given, after}

assigned_once : assign_once percent ids request current before ≡ ok (assigned given, after)
unfolding assign_once validate_ownership find_attempt decision_key find_row existing_assignment
    with_escalation_baseline fallback_source available_for commit assign_new persist
    create_assignment last_sequence numbered append_events get put bump contains ◌-ℤ◌ ◌+ℤ◌ lex
    sorted least snapshot reserved_usd actual_usd estimated_usd task_committed_usd task_usage
    task_reserved is_above update_warning find_key admits_row create_reservation reserve_new reserve
    exclusion_reason support_reason capability_reason price_reason capability_fit note_candidate
    tally choose rank most_common select_model
assigned_once = refl

abbrev elsewhere : RoutingSnapshot
elsewhere = record current { candidates = []; catalog_revision = "d" }

-- the limit of the run has been lowered since
abbrev poorer : Store
poorer = record after { ledger = record after.ledger { runs = ("r", some 10) ∷ [] } }

assign_once_idempotent_example :
    assign_once percent ids request elsewhere poorer ≡ ok (assigned given, poorer)
assign_once_idempotent_example =
    assign_once_idempotent percent ids ids request current elsewhere before after poorer [] given
      assigned_once (record { attempts = refl; task_runs = refl; run_sessions = refl }) refl

limits_hold : IsWithin before.ledger
unfolding reserved_usd get
limits_hold = record { limited = λ run_id l g. omega arith; distinct = tt; unique = tt }

assign_once_charges_example : committed "r" after.ledger + 0 ≡ committed "r" before.ledger + 40
unfolding existing_assignment find_row fallback_source find_key
assign_once_charges_example =
    assign_once_charges percent ids request current before after given none "r" assigned_once refl
      refl tt limits_hold refl

-- the first snapshot is stale, the second is not
abbrev snapshots : ℕ → RoutingSnapshot
snapshots zero = elsewhere
snapshots (suc n) = current

assign-IsFirstFresh_example :
    IsFirstFresh
      (λ n. assign_once percent ids request (snapshots n) before)
      0
      2
      (assign percent 2 (λ n. ids) request snapshots before)
assign-IsFirstFresh_example = assign-IsFirstFresh percent (λ n. ids) request snapshots before 2

assigned_at_once :
    assign percent 0 (λ n. ids) request (λ n. current) before ≡ ok (assigned given, after)
unfolding assign_from
assigned_at_once = assigned_once

ServiceHistory-IsSound_example : IsSound after
ServiceHistory-IsSound_example =
    ServiceHistory-IsSound
      (next start (assigning 0 (λ n. ids) request (λ n. current) (assigned given) assigned_at_once))
      (record { within = limits_hold; ordered = tt })

abbrev plan : Plan
plan = record {
  remaining = some (pos 30);
  selections = record { request = request; selection = chosen; health_revision = "h" } ∷ [];
  deferred = [];
  failures = [];
}

planned :
    plan_all before.ledger
      (snapshot_of before.ledger "r" (some 100))
      (λ q. current)
      (request ∷ [])
      (initial_plan (snapshot_of before.ledger "r" (some 100)) 30)
    ≡ ok plan
unfolding plan_all plan_one ◌-ℤ◌ ◌+ℤ◌ lex sorted least snapshot reserved_usd actual_usd
    estimated_usd task_committed_usd task_usage task_reserved exclusion_reason support_reason
    capability_reason price_reason capability_fit note_candidate tally choose rank most_common
    select_model bump get put contains
planned = refl

plan_all-fits_example :
    (plan.selections ≡ []) ⊎ (planned_cost plan.selections + 30 + committed "r" before.ledger ≤ 100)
plan_all-fits_example =
    plan_all-fits before.ledger "r" 100 30 (λ q. current) (request ∷ []) plan planned

-- an allowance that leaves less than the model costs defers the request, and reserves nothing
abbrev deferred : BatchAssignmentResult
deferred = record {
  assignments = [];
  deferred_task_ids = "t" ∷ [];
  lead_reservation_id = none;
  failures =
      record {
        task_id = "t";
        binding_constraint = some "budget_unaffordable";
        excluded_counts = ("budget_unaffordable", 1) ∷ [];
      }
      ∷ [];
}

batch_deferred :
    assign_batch percent "L" (λ n. ids) (request ∷ []) (λ q. current) 61 before
    ≡ ok (deferred, before)
unfolding assign_batch decide_batch batch_key joined validate_all plan_all plan_one ◌-ℤ◌ ◌+ℤ◌ lex
    sorted least snapshot reserved_usd actual_usd estimated_usd task_committed_usd task_usage
    task_reserved exclusion_reason support_reason capability_reason price_reason capability_fit
    note_candidate tally choose rank most_common select_model bump get put contains
    validate_ownership find_attempt with_escalation_baseline
batch_deferred = refl
