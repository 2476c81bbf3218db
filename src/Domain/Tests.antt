-- ===== src/Domain/Tests.antt =====
-- The theorems about lifecycles at single inputs.
use skail.Prelude.{String, ◌≡◌, refl, ◌⊎◌, ◌↔◌, true, none, some, List, [], ◌∷◌, arith, all, ok}
use skail.Prelude.Dict.{get, has}
use skail.Prelude.Sets.{contains}
use skail.Domain.Graph.{Graph, Search, explore}
use skail.Domain.Graph.Orders.{IsOrder}
use skail.Domain.Graph.Cycles.{Reaches}
use skail.Domain.Graph.Fuel.{IsClosed, explore_decides}
use skail.Domain.Plans.{
  PlanNode, PlanNodeKind, EffectScope, ExecutionPlan, PlanRevision, validate_graph, ExecutionMode,
  ExecutionDecision, validate_mode, check_plan, check_discovery,
}
use skail.Domain.Plans.Validation.{IsValid, validate_graph_iff}
use skail.Domain.Tasks.{TaskStatus, is_terminal, transition_task}
use skail.Domain.Tasks.Lifecycle.{Step, transition_task-iff-Step}

transition_task-iff-Step_example :
    (transition_task TaskStatus.failed TaskStatus.queued 1 ≡ ok TaskStatus.queued) ↔ (
      (TaskStatus.queued ≡ TaskStatus.queued)
      × (Step TaskStatus.failed TaskStatus.queued 1
          ⊎ (TaskStatus.failed ≡ TaskStatus.queued) × (is_terminal TaskStatus.failed ≡ true)))
transition_task-iff-Step_example =
    transition_task-iff-Step TaskStatus.failed TaskStatus.queued TaskStatus.queued 1

abbrev loop : Graph
loop = ("a", "b" ∷ []) ∷ ("b", "a" ∷ []) ∷ []

loop-IsClosed : IsClosed loop
unfolding get contains
loop-IsClosed x y ds known member = ground (arith, known, member)

loop_known : all (has loop) ("a" ∷ "b" ∷ []) ≡ true
unfolding get
loop_known = refl

explore_decides_example :
    ((explore loop ("a" ∷ "b" ∷ []) ≡ Search.cyclic) × ((x : String) × Reaches loop x x))
    ⊎ ((v : List String) × (explore loop ("a" ∷ "b" ∷ []) ≡ Search.done v)
        × IsOrder loop v
        × (all (contains v) ("a" ∷ "b" ∷ []) ≡ true))
explore_decides_example = explore_decides loop ("a" ∷ "b" ∷ []) loop-IsClosed loop_known

abbrev look : PlanNode
look = record {
  local_id = "look";
  kind = PlanNodeKind.checkpoint;
  objective = "Read the code";
  depends_on = [];
  effect_scope = EffectScope.read;
  resource_scopes = [];
  profile = none;
}

abbrev plan : ExecutionPlan
plan = record {
  schema_version = 1;
  policy_version = "adaptive-v1";
  revision = 2;
  nodes = look ∷ record look { local_id = "ask"; objective = "Ask"; depends_on = "look" ∷ [] } ∷ [];
}

abbrev lower : String → String
lower s = s

validate_graph_iff_example : (validate_graph lower plan ≡ ok plan) ↔ IsValid lower plan
validate_graph_iff_example = validate_graph_iff lower plan

abbrev revised : PlanRevision
revised = record {
  expected_revision = 1;
  added_nodes = [];
  replaced_local_ids = [];
  cancelled_local_ids = [];
  justification = "a new question";
}

abbrev decision : ExecutionDecision
decision = record {
  mode = ExecutionMode.discovery;
  objective = "Find out";
  constraints = [];
  reason = "unclear";
  plan = some plan;
  revision = some revised;
}

decision_ok : validate_mode decision ≡ ok decision
unfolding validate_mode check_plan check_discovery
decision_ok = refl
