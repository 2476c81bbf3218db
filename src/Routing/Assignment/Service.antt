-- ===== src/Routing/Assignment/Service.antt =====
-- `AssignmentService._assign_once` and `assign`.
use skail.Prelude.{
  ℕ, zero, suc, ◌+◌, String, Bool, true, false, ◌&&◌, not, Option, none, some, [], ◌∷◌, str_eq,
  if◌then◌else◌, Result, ok, err, ◌>>=◌, ◌>>◌, raise_if,
}
use skail.Prelude.Int.{ℤ, pos, ◌+ℤ◌, ◌-ℤ◌, ltb_ℤ}
use skail.Routing.Budget.Tables.{
  Tables, BudgetSnapshot, snapshot, task_committed_usd, status_eq, reserved,
}
use skail.Routing.Budget.Operations.{Percent}
use skail.Routing.Selector.Requirements.{is_manual}
use skail.Routing.Selector.Exclusion.{RouteCandidate, is_none}
use skail.Routing.Selector.Choice.{RouteSelection, RouteFailure, Route, select_model}
use skail.Routing.Assignment.Tables.{
  AssignmentRequest, RoutingSnapshot, TaskAssignment, Store, AssignError, stale_routing_snapshot,
  Outcome, assigned, failed, from_ledger, from_selector,
}
use skail.Routing.Assignment.Lookups.{
  validate_ownership, decision_key, existing_assignment, with_escalation_baseline, FallbackSource,
  fallback_source,
}
use skail.Routing.Assignment.Persisting.{NewIds, persist, release_if}

-- what a fallback gets back from the reservation that it replaces
abbrev pub credit : Option FallbackSource → ℕ
credit none = 0
credit (some s) = if status_eq s.status reserved then s.amount_usd else 0

abbrev plus : Option ℤ → ℕ → Option ℤ
plus none n = none
plus (some z) n = some (z +ℤ pos n)

abbrev pub min_ℤ : ℤ → ℤ → ℤ
min_ℤ a b = if ltb_ℤ b a then b else a

-- `task_available if available is None else min(available, task_available)`
abbrev narrowed : Option ℤ → ℤ → Option ℤ
narrowed none task = some task
narrowed (some run) task = some (min_ℤ run task)

abbrev pub task_narrowed : Tables → AssignmentRequest → ℕ → Option ℕ → Option ℤ → Option ℤ
task_narrowed db q back none run = run
task_narrowed db q back (some l) run =
    narrowed run (pos l -ℤ pos (task_committed_usd db q.run_id q.task_id) +ℤ pos back)

-- `available`: the least of what the run and the task have left, the credit included
unfoldable pub available_for :
    Tables → AssignmentRequest → BudgetSnapshot → Option FallbackSource → Option ℤ
available_for db q s source =
    task_narrowed db q (credit source) q.task_limit_usd (plus s.available_usd (credit source))

-- `_allows_unpriced_manual`
abbrev pub allows_unpriced_manual : AssignmentRequest → BudgetSnapshot → Bool
allows_unpriced_manual q s =
    is_manual q.requirements.mode && (is_none q.task_limit_usd && is_none s.hard_limit_usd)

abbrev pub bound_by : String → RouteFailure
bound_by why = record {
  excluded_counts = (why, 1) ∷ [];
  binding_constraint = some why;
  required_capability_floor = none;
  best_candidates = [];
}

abbrev pub model_differs : RouteCandidate → Option FallbackSource → Bool
model_differs c none = false
model_differs c (some s) = not (str_eq c.profile.model s.model)

-- a routing snapshot that does not match the request
abbrev is_stale : AssignmentRequest → RoutingSnapshot → Bool
is_stale q r = not (
    r.is_current
    && (str_eq r.catalog_revision q.catalog_revision && str_eq r.config_revision q.config_revision))

abbrev as_assigned : TaskAssignment × Store → Outcome × Store
as_assigned r = (assigned r.0, r.1)

-- the writes behind a selection
unfoldable pub commit :
    Percent
    → NewIds
    → AssignmentRequest
    → Option FallbackSource
    → RouteSelection
    → String
    → String
    → Store
    → Result AssignError (Outcome × Store)
commit p ids q source sel key health st = do
  freed ← release_if p q source st
  r ← persist p ids q sel key health freed
  ok (as_assigned r)

abbrev pub conclude :
    Percent
    → NewIds
    → AssignmentRequest
    → BudgetSnapshot
    → Option FallbackSource
    → String
    → String
    → Store
    → Route
    → Result AssignError (Outcome × Store)
conclude p ids q s source key health st (Route.no_qualified_model f) = ok (failed f, st)
conclude p ids q s source key health st (Route.selected sel) =
    if is_none sel.candidate.estimated_cost_usd && not (allows_unpriced_manual q s)
    then ok (failed (bound_by "price_unavailable_for_reservation"), st)
    else if model_differs sel.candidate source
    then ok (failed (bound_by "fallback_model_mismatch"), st)
    else commit p ids q source sel key health st

-- `_assign_once` behind the replay check, for a request with its escalation baseline
unfoldable pub assign_new :
    Percent
    → NewIds
    → AssignmentRequest
    → RoutingSnapshot
    → Store
    → Result AssignError (Outcome × Store)
assign_new p ids q r st = do
  source ← fallback_source st q
  s ← from_ledger (snapshot st.ledger q.run_id)
  raise_if (is_stale q r) stale_routing_snapshot
  route ←
      from_selector (
        select_model r.candidates q.requirements (available_for st.ledger q s source)
          q.manual_model)
  conclude p ids q s source (decision_key q) r.health_revision st route

unfoldable pub assign_once :
    Percent
    → NewIds
    → AssignmentRequest
    → RoutingSnapshot
    → Store
    → Result AssignError (Outcome × Store)
assign_once p ids q r st = do
  validate_ownership st q
  elim (existing_assignment st (decision_key q)) [
    | some a ↦ ok (assigned a, st)
    | none ↦ assign_new p ids (with_escalation_baseline st q) r st
  ]

abbrev pub is_stale_error : AssignError → Bool
is_stale_error stale_routing_snapshot = true
is_stale_error _ = false

-- the `try` of the loop: a stale snapshot leaves the tables as they were, and all else ends it
abbrev pub or_retry :
    Result AssignError (Outcome × Store)
    → Result AssignError (Outcome × Store)
    → Result AssignError (Outcome × Store)
or_retry (ok r) again = ok r
or_retry (err e) again = if is_stale_error e then again else err e

-- `assign`: `retries` further calls of `candidates` may follow the one with number `attempt`, and
-- each draws its own identities.
unfoldable pub assign_from :
    Percent
    → (ℕ → NewIds)
    → AssignmentRequest
    → (ℕ → RoutingSnapshot)
    → Store
    → ℕ
    → ℕ
    → Result AssignError (Outcome × Store)
assign_from p ids q candidates st attempt zero =
    assign_once p (ids attempt) q (candidates attempt) st
assign_from p ids q candidates st attempt (suc retries) =
    or_retry (assign_once p (ids attempt) q (candidates attempt) st)
      (assign_from p ids q candidates st (attempt + 1) retries)

abbrev pub assign :
    Percent
    → ℕ
    → (ℕ → NewIds)
    → AssignmentRequest
    → (ℕ → RoutingSnapshot)
    → Store
    → Result AssignError (Outcome × Store)
assign p max_snapshot_retries ids q candidates st =
    assign_from p ids q candidates st 0 max_snapshot_retries
