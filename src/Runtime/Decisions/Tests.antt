-- ===== src/Runtime/Decisions/Tests.antt =====
-- The theorems about the decision gate at single inputs.
use skail.Prelude.{◌≡◌, refl, true, false, none, some, [], ◌∷◌, length, str_eq, err}
use skail.Prelude.Dict.{has, get}
use skail.Domain.Plans.{PlanNode, PlanNodeKind, EffectScope, ExecutionMode, ExecutionDecision}
use skail.Runtime.Decisions.State.{
  GateError, Intent, Gate, gate, parsed, Services, agents_of, own_scopes, own_all, is_prefix,
  wrong_profile, constraint_error,
}
use skail.Runtime.Decisions.Operations.{
  pay, record_decision, transition_error, admit, awaits_answer, allows, Guarded, guard,
}
use skail.Runtime.Decisions.Scopes.{all_scopes, IsDisjoint, constrained-IsDisjoint}
use skail.Runtime.Decisions.Admissions.{Reach, first, admits, handled_decided}

abbrev services : Services ExecutionDecision
services = record {
  parse = λ d. parsed d;
  admit_plan = λ p. true;
  revise_plan = none;
  is_blank = λ s. str_eq s "";
  parts = λ s. s ∷ [];
}

abbrev intent : Intent
intent = record {
  required_mode = none;
  required_agent_count = some 2;
  required_agent_profile = none;
}

abbrev writer : PlanNode
writer = record {
  local_id = "a";
  kind = PlanNodeKind.agent;
  objective = "Write";
  depends_on = [];
  effect_scope = EffectScope.workspace_write;
  resource_scopes = "src" ∷ [];
  profile = none;
}

abbrev tester : PlanNode
tester = record writer { local_id = "b"; objective = "Test"; resource_scopes = "tests" ∷ [] }

abbrev decision : ExecutionDecision
decision = record {
  mode = ExecutionMode.planned;
  objective = "Fix";
  constraints = [];
  reason = "two parts";
  plan = some (record {
    schema_version = 1;
    policy_version = "adaptive-v1";
    revision = 1;
    nodes = writer ∷ tester ∷ [];
  });
  revision = none;
}

constraints_met : constraint_error services intent decision ≡ none
unfolding constraint_error agents_of own_scopes own_all is_prefix
constraints_met = refl

constrained-IsDisjoint_example :
    (length (agents_of decision.plan) ≡ 2)
    × (wrong_profile none (agents_of decision.plan) ≡ false)
    × IsDisjoint (all_scopes services (agents_of decision.plan))
constrained-IsDisjoint_example =
    constrained-IsDisjoint services intent decision 2 constraints_met refl

-- The same scope for both agents costs a repair.
overlap_refused :
    admit services (gate intent false false) (record decision {
      plan = some (record {
        schema_version = 1;
        policy_version = "adaptive-v1";
        revision = 1;
        nodes = writer ∷ record tester { resource_scopes = "src" ∷ [] } ∷ [];
      });
    })
    ≡ (
      record (gate intent false false) { repairs_remaining = 1 },
      err GateError.agent_scope_conflict,
    )
unfolding admit gate constraint_error agents_of own_scopes own_all is_prefix pay
overlap_refused = refl

abbrev decided : Gate
decided = (admit services (gate intent false false) decision).0

decided_handles : guard decided "write_file" "c1" ≡ Guarded.handled
unfolding guard allows admit gate constraint_error agents_of own_scopes own_all is_prefix pay
    record_decision transition_error get
decided_handles = refl

decided-Reach : Reach services intent decided
decided-Reach = admits decision (first false false)

handled_decided_example :
    (awaits_answer decided "write_file" ≡ false)
    × (has decided.rejected_tool_codes "c1" ≡ false)
    × ((d : ExecutionDecision) × (decided.decision ≡ some d)
        × (constraint_error services intent d ≡ none))
handled_decided_example =
    handled_decided services intent "write_file" "c1" decided-Reach decided_handles refl refl
