-- ===== src/Runtime/Decisions/Operations.antt =====
-- src/skail/runtime/decisions.py: the methods of `ExecutionDecisionGate` and the middleware's `_guard`.
use skail.Prelude.{
  ℕ, ◌+◌, ◌-◌, String, Bool, true, false, ◌&&◌, ◌||◌, not, Option, none, some, List, [], ◌∷◌, ◌==◌,
  str_eq, if◌then◌else◌, Result, ok, err,
}
use skail.Prelude.Dict.{has, put}
use skail.Prelude.Sets.{contains, add}
use skail.Domain.Plans.{ExecutionPlan, PlanRevision, ExecutionMode, ExecutionDecision}
use skail.Runtime.Decisions.State.{GateError, Gate, Parsed, Services, constraint_error}

module _ {A : Type 0} (services : Services A) where
  -- `_consume_repair()` before an error is raised
  unfoldable pub pay : Gate → GateError → Gate × Result GateError ExecutionDecision
  pay g e =
      if g.repairs_remaining == 0
      then (g, err GateError.repair_exhausted)
      else (record g { repairs_remaining = g.repairs_remaining - 1 }, err e)

  abbrev revises :
      Option (PlanRevision → ExecutionPlan → Bool) → PlanRevision → ExecutionPlan → Bool
  revises none r p = false
  revises (some f) r p = f r p

  abbrev pub store_accepts : Option ExecutionPlan → Option PlanRevision → Bool
  store_accepts none r = true
  store_accepts (some p) none = services.admit_plan p
  store_accepts (some p) (some r) = revises services.revise_plan r p

  -- `_record`
  unfoldable pub record_decision :
      Gate → ExecutionDecision → Gate × Result GateError ExecutionDecision
  record_decision g d =
      if store_accepts d.plan d.revision
      then (record g { decision = some d }, ok d)
      else pay g GateError.plan_refused

  abbrev is_direct : ExecutionMode → Bool
  is_direct ExecutionMode.direct = true
  is_direct _ = false

  -- `plan is not None and plan.revision != n`
  abbrev is_other : Option ExecutionPlan → ℕ → Bool
  is_other none n = false
  is_other (some p) n = not (p.revision == n)

  -- The checks of a decision that follows one with a plan.
  abbrev succession_error :
      Option ExecutionPlan → Option PlanRevision → ExecutionPlan → Option GateError
  succession_error plan none current =
      if is_other plan current.revision
      then some GateError.revision_conflict
      else some GateError.already_recorded
  succession_error plan (some r) current =
      if not (r.expected_revision == current.revision) || is_other plan (r.expected_revision + 1)
      then some GateError.revision_conflict
      else none

  abbrev follow_error : ExecutionDecision → Option ExecutionPlan → Option GateError
  follow_error d none = none
  follow_error d (some current) = succession_error d.plan d.revision current

  unfoldable pub transition_error : ExecutionDecision → Option ExecutionDecision → Option GateError
  transition_error d none = none
  transition_error d (some old) =
      if is_direct d.mode then some GateError.already_recorded else follow_error d old.plan

  abbrev pub unless_free :
      Gate → ExecutionDecision → Option GateError → Gate × Result GateError ExecutionDecision
  unless_free g d none = record_decision g d
  unless_free g d (some e) = (g, err e)

  abbrev pub unless_paid :
      Gate → ExecutionDecision → Option GateError → Gate × Result GateError ExecutionDecision
  unless_paid g d none = unless_free g d (transition_error d g.decision)
  unless_paid g d (some e) = pay g e

  abbrev pub admit_parsed : Gate → Parsed → Gate × Result GateError ExecutionDecision
  admit_parsed g (Parsed.parsed d) = unless_paid g d (constraint_error services g.intent d)
  admit_parsed g (Parsed.free_error e) = (g, err e)
  admit_parsed g (Parsed.paid_error e) = pay g e

  -- `admit`, with `_validate_and_record` and `_admit_transition`
  unfoldable pub admit : Gate → A → Gate × Result GateError ExecutionDecision
  admit g value = admit_parsed g (services.parse value)

abbrev pub awaits_answer : Gate → String → Bool
awaits_answer g name =
    g.requires_user_answer && not g.question_answered && not (str_eq name "ask_user")

abbrev pub is_decided : Option ExecutionDecision → Bool
is_decided none = false
is_decided (some d) = true

-- `allows`, for a call with an id
unfoldable pub allows : Gate → String → String → Bool
allows g name id =
    if has g.rejected_tool_codes id
    then false
    else if str_eq name "ask_user"
    then true
    else if awaits_answer g name
    then false
    else is_decided g.decision

abbrev pub reject : Gate → String → GateError → Gate
reject g id code = record g { rejected_tool_codes = put g.rejected_tool_codes id code }

abbrev pub note_admission : String → Gate × Result GateError ExecutionDecision → Gate
note_admission id (g, ok d) = record g { prepared_decision_ids = add g.prepared_decision_ids id }
note_admission id (g, err e) = reject g id e

pub record ToolCall (A : Type 0) : Type 0 where
  pub name : String
  pub id : String
  -- none where they are no `dict`
  pub args : Option A

module _ {A : Type 0} (services : Services A) where
  abbrev pub prepare_decision : Gate → String → Option A → Gate
  prepare_decision g id none = reject g id GateError.plan_invalid
  prepare_decision g id (some a) = note_admission id (admit services g a)

  -- The body of the loop of `prepare_response`, over the calls with a name and an id.
  unfoldable pub prepare_call : Gate → ToolCall A → Gate
  prepare_call g c =
      if contains g.prepared_decision_ids c.id || has g.rejected_tool_codes c.id
      then g
      else if awaits_answer g c.name
      then reject g c.id GateError.question_required
      else if str_eq c.name "execution_decision"
      then prepare_decision g c.id c.args
      else if not (allows g c.name c.id)
      then reject g c.id GateError.decision_required
      else g

  unfoldable pub prepare_response : Gate → List (ToolCall A) → Gate
  prepare_response g [] = g
  prepare_response g (c ∷ calls) = prepare_response (prepare_call g c) calls

-- What the middleware does with a tool call.
pub data Guarded : Type 0 where
  rejected question_required accepted handled exhausted decision_required : Guarded

-- `_guard`
unfoldable pub guard : Gate → String → String → Guarded
guard g name id =
    if has g.rejected_tool_codes id
    then Guarded.rejected
    else if awaits_answer g name
    then Guarded.question_required
    else if str_eq name "execution_decision" && contains g.prepared_decision_ids id
    then Guarded.accepted
    else if allows g name id || str_eq name "execution_decision"
    then Guarded.handled
    else if not (is_decided g.decision) && g.repairs_remaining == 0
    then Guarded.exhausted
    else Guarded.decision_required
