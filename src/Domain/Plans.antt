-- ===== src/Domain/Plans.antt =====
-- src/skail/domain/plans.py: an execution plan and its validation; the lead's decision of
-- src/skail/domain/decisions.py, `validate_mode`. `strip().casefold()` is a parameter.
pub mod Validation
use skail.Prelude.{
  ℕ, ◌+◌, String, Bool, true, false, ◌&&◌, ◌||◌, not, Option, none, some, List, [], ◌∷◌, map, any,
  length, ltb, ◌==◌, if◌then◌else◌, Result, ok, err,
}
use skail.Prelude.Dict.{has, keys}
use skail.Prelude.Sets.{contains, has_duplicate}
use skail.Domain.Graph.{Graph, Search, explore}

pub data PlanNodeKind : Type 0 where
  agent tool verification integration checkpoint : PlanNodeKind

pub data EffectScope : Type 0 where
  read workspace_write external_write unknown : EffectScope

pub record PlanNode : Type 0 where
  pub local_id : String
  pub kind : PlanNodeKind
  pub objective : String
  pub depends_on : List String
  pub effect_scope : EffectScope
  pub resource_scopes : List String
  -- `task_features.get("profile")`
  pub profile : Option String

pub record ExecutionPlan : Type 0 where
  pub schema_version : ℕ
  pub policy_version : String
  pub revision : ℕ
  pub nodes : List PlanNode

pub record PlanRevision : Type 0 where
  pub expected_revision : ℕ
  pub added_nodes : List PlanNode
  pub replaced_local_ids : List String
  pub cancelled_local_ids : List String
  pub justification : String

pub data PlanError : Type 0 where
  duplicate_node duplicate_objective invalid_dependency cycle : PlanError
  -- a `KeyError`, and the end of the search's fuel
  unknown_node out_of_fuel : PlanError

-- `{node.local_id: node}`, as far as the search reads it
unfoldable pub graph_of : List PlanNode → Graph
graph_of [] = []
graph_of (n ∷ ns) = (n.local_id, n.depends_on) ∷ graph_of ns

abbrev pub verdict : ExecutionPlan → Search → Result PlanError ExecutionPlan
verdict p (Search.done visited) = ok p
verdict p Search.cyclic = err PlanError.cycle
verdict p Search.missing = err PlanError.unknown_node
verdict p Search.exhausted = err PlanError.out_of_fuel

-- `local_id in depends_on or any(dependency not in nodes for dependency in depends_on)`
abbrev pub is_invalid : Graph → PlanNode → Bool
is_invalid g n = contains n.depends_on n.local_id || any (λ d. not (has g d)) n.depends_on

unfoldable pub validate_graph : (String → String) → ExecutionPlan → Result PlanError ExecutionPlan
validate_graph casefold p =
    let g = graph_of p.nodes in
    if has_duplicate (map (λ n. n.local_id) p.nodes)
    then err PlanError.duplicate_node
    else if has_duplicate (map (λ n. casefold n.objective) p.nodes)
    then err PlanError.duplicate_objective
    else if any (is_invalid g) p.nodes
    then err PlanError.invalid_dependency
    else verdict p (explore g (keys g))

pub data ExecutionMode : Type 0 where
  direct discovery planned : ExecutionMode

pub record ExecutionDecision : Type 0 where
  pub mode : ExecutionMode
  pub objective : String
  pub constraints : List String
  pub reason : String
  pub plan : Option ExecutionPlan
  pub revision : Option PlanRevision

pub data DecisionError : Type 0 where
  direct_plan_forbidden direct_revision_forbidden plan_required : DecisionError
  initial_revision_metadata_forbidden revision_required revision_mismatch : DecisionError
  discovery_checkpoint_required discovery_effect_forbidden : DecisionError

abbrev pub is_checkpoint : PlanNodeKind → Bool
is_checkpoint PlanNodeKind.checkpoint = true
is_checkpoint _ = false

abbrev pub is_read : EffectScope → Bool
is_read EffectScope.read = true
is_read _ = false

-- The checks of a discovery, once the revisions agree.
unfoldable pub check_discovery :
    ExecutionDecision → ExecutionPlan → ExecutionMode → Result DecisionError ExecutionDecision
check_discovery d p ExecutionMode.discovery =
    if not (any (λ n. is_checkpoint n.kind) p.nodes)
    then err DecisionError.discovery_checkpoint_required
    else if any (λ n. not (is_read n.effect_scope)) p.nodes
    then err DecisionError.discovery_effect_forbidden
    else ok d
check_discovery d p _ = ok d

unfoldable pub check_plan :
    ExecutionDecision → ExecutionPlan → Option PlanRevision → Result DecisionError ExecutionDecision
check_plan d p none =
    if ltb 1 p.revision then err DecisionError.revision_required else check_discovery d p d.mode
check_plan d p (some r) =
    if p.revision == 1
    then err DecisionError.initial_revision_metadata_forbidden
    else if ltb 1 p.revision && not (r.expected_revision + 1 == p.revision)
    then err DecisionError.revision_mismatch
    else check_discovery d p d.mode

abbrev check_direct :
    ExecutionDecision
    → Option ExecutionPlan
    → Option PlanRevision
    → Result DecisionError ExecutionDecision
check_direct d (some p) r = err DecisionError.direct_plan_forbidden
check_direct d none (some r) = err DecisionError.direct_revision_forbidden
check_direct d none none = ok d

abbrev check_planned :
    ExecutionDecision → Option ExecutionPlan → Result DecisionError ExecutionDecision
check_planned d none = err DecisionError.plan_required
check_planned d (some p) = check_plan d p d.revision

unfoldable pub validate_mode : ExecutionDecision → Result DecisionError ExecutionDecision
validate_mode d = elim d.mode [
  | ExecutionMode.direct ↦ check_direct d d.plan d.revision
  | ExecutionMode.discovery ↦ check_planned d d.plan
  | ExecutionMode.planned ↦ check_planned d d.plan
]
