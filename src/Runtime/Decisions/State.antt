-- ===== src/Runtime/Decisions/State.antt =====
-- src/skail/runtime/decisions.py: the state of `ExecutionDecisionGate` and `_validate_constraints`.
use skail.Prelude.{
  ℕ, String, Bool, true, false, ◌&&◌, ◌||◌, not, Option, none, some, List, [], ◌∷◌, ◌++◌, ◌==◌, any,
  keep, length, str_eq, if◌then◌else◌, Result, ok, err,
}
use skail.Prelude.Dict.{Dict}
use skail.Domain.Plans.{
  PlanNode, PlanNodeKind, ExecutionPlan, PlanRevision, ExecutionMode, ExecutionDecision, is_read,
}

pub data GateError : Type 0 where
  intent_conflict agent_count_conflict agent_profile_conflict agent_scope_conflict : GateError
  already_recorded revision_conflict plan_refused : GateError
  repair_exhausted payload_conflict plan_required plan_invalid : GateError
  question_required decision_required : GateError

-- What the user's words require of a decision.
pub record Intent : Type 0 where
  pub required_mode : Option ExecutionMode
  pub required_agent_count : Option ℕ
  pub required_agent_profile : Option String

pub record Gate : Type 0 where
  pub intent : Intent
  pub requires_user_answer : Bool
  pub question_answered : Bool
  pub repairs_remaining : ℕ
  pub decision : Option ExecutionDecision
  pub prepared_decision_ids : List String
  pub rejected_tool_codes : Dict GateError

-- `__init__` without a restored decision
unfoldable pub gate : Intent → Bool → Bool → Gate
gate intent requires_user_answer question_answered = record {
  intent = intent;
  requires_user_answer = requires_user_answer;
  question_answered = question_answered;
  repairs_remaining = 2;
  decision = none;
  prepared_decision_ids = [];
  rejected_tool_codes = [];
}

-- What comes of `_normalize_decision_args` and `ExecutionDecision.model_validate`.
pub data Parsed : Type 0 where
  parsed : ExecutionDecision → Parsed
  -- an error that consumes no repair, and one that does
  free_error : GateError → Parsed
  paid_error : GateError → Parsed

pub record Services (A : Type 0) : Type 0 where
  pub parse : A → Parsed
  -- whether the plan store accepts a plan; a revised one, where revisions are available
  pub admit_plan : ExecutionPlan → Bool
  pub revise_plan : Option (PlanRevision → ExecutionPlan → Bool)
  -- `not scope.strip().strip("/")`, and the parts of the scope as a POSIX path
  pub is_blank : String → Bool
  pub parts : String → List String

abbrev mode_number : ExecutionMode → ℕ
mode_number ExecutionMode.direct = 0
mode_number ExecutionMode.discovery = 1
mode_number ExecutionMode.planned = 2

abbrev pub mode_eq : ExecutionMode → ExecutionMode → Bool
mode_eq a b = mode_number a == mode_number b

abbrev is_agent : PlanNodeKind → Bool
is_agent PlanNodeKind.agent = true
is_agent _ = false

unfoldable pub agents_of : Option ExecutionPlan → List PlanNode
agents_of none = []
agents_of (some p) = keep (λ n. is_agent n.kind) p.nodes

abbrev profile_or : Option String → Bool → String
profile_or (some p) reads = p
profile_or none reads = if reads then "explorer" else "implementer"

abbrev profile_of : PlanNode → String
profile_of n = profile_or n.profile (is_read n.effect_scope)

abbrev wrong_mode : Option ExecutionMode → ExecutionMode → Bool
wrong_mode none mode = false
wrong_mode (some required) mode = not (mode_eq mode required)

abbrev wrong_count : Option ℕ → ℕ → Bool
wrong_count none n = false
wrong_count (some required) n = not (n == required)

abbrev pub wrong_profile : Option String → List PlanNode → Bool
wrong_profile none agents = false
wrong_profile (some required) agents = any (λ n. not (str_eq (profile_of n) required)) agents

-- `parts[:len(existing)] == existing`
unfoldable pub is_prefix : List String → List String → Bool
is_prefix [] ys = true
is_prefix (x ∷ xs) [] = false
is_prefix (x ∷ xs) (y ∷ ys) = str_eq x y && is_prefix xs ys

abbrev pub overlaps : List String → List String → Bool
overlaps a b = is_prefix b a || is_prefix a b

abbrev is_nil : List String → Bool
is_nil [] = true
is_nil (x ∷ xs) = false

-- The scopes of one agent, added to those owned so far.
unfoldable pub own_scopes : List (List String) → List (List String) → Option (List (List String))
own_scopes [] owned = some owned
own_scopes (s ∷ scopes) owned =
    if is_nil s || any (overlaps s) owned then none else own_scopes scopes (owned ++ s ∷ [])

abbrev pub has_scope :
    List (List String) → Option (List (List String)) → Option (List (List String))
has_scope [] rest = none
has_scope (s ∷ scopes) rest = rest

module _ {A : Type 0} (services : Services A) where
  abbrev pub scopes_of : List String → List (List String)
  scopes_of [] = []
  scopes_of (s ∷ ss) =
      let rest = scopes_of ss in if services.is_blank s then rest else services.parts s ∷ rest

  -- The loop over the agents; none is a conflict.
  unfoldable pub own_all : List PlanNode → List (List String) → Option (List (List String))
  own_all [] owned = some owned
  own_all (n ∷ agents) owned =
      elim (has_scope (scopes_of n.resource_scopes)
        (own_scopes (scopes_of n.resource_scopes) owned)) [
          | none ↦ none
          | some owned' ↦ own_all agents owned'
        ]

  abbrev scope_error : Option (List (List String)) → Option GateError
  scope_error none = some GateError.agent_scope_conflict
  scope_error (some owned) = none

  abbrev asks_agents : Option ℕ → Option String → Bool
  asks_agents none none = false
  asks_agents _ _ = true

  -- `_validate_constraints`: the error that it raises
  unfoldable pub constraint_error : Intent → ExecutionDecision → Option GateError
  constraint_error i d =
      let agents = agents_of d.plan in
      if wrong_mode i.required_mode d.mode
      then some GateError.intent_conflict
      else if not (asks_agents i.required_agent_count i.required_agent_profile)
      then none
      else if wrong_count i.required_agent_count (length agents)
      then some GateError.agent_count_conflict
      else if wrong_profile i.required_agent_profile agents
      then some GateError.agent_profile_conflict
      else scope_error (own_all agents [])

  -- `__init__` with a restored decision, which validates as itself: its dump is read back
  abbrev restored_or : ExecutionDecision → Gate → Option GateError → Result GateError Gate
  restored_or d g none = ok (record g { decision = some d })
  restored_or d g (some e) = err e

  unfoldable pub restored_gate : Intent → Bool → Bool → ExecutionDecision → Result GateError Gate
  unfolding gate
  restored_gate i requires_user_answer question_answered d =
      restored_or d (gate i requires_user_answer question_answered) (constraint_error i d)
