-- ===== src/Runtime/Decisions/Admissions.antt =====
-- Histories of the gate: which decisions it holds, and which tool calls it lets through.
use skail.Prelude.{
  ◌≤◌, String, ◌≡◌, refl, ◌⊎◌, inl, inr, Bool, true, false, Option, none, some, List, [], ◌∷◌,
  arith, str_eq, if◌then◌else◌, Bool-cases, Option-cases, subst, Result, ok, err, ◌==◌,
}
use skail.Prelude.Dict.{has}
use skail.Domain.Plans.{ExecutionDecision}
use skail.Runtime.Decisions.State.{
  GateError, Intent, Gate, gate, restored_gate, Parsed, Services, constraint_error,
}
use skail.Runtime.Decisions.Operations.{
  store_accepts, unless_free, unless_paid, pay, record_decision, transition_error, admit_parsed,
  admit, awaits_answer, is_decided, allows, reject, note_admission, ToolCall, prepare_decision,
  prepare_call, prepare_response, Guarded, guard,
}

module _ {A : Type 0} (services : Services A) where
  -- The decision, if there is one, passes the constraints of the intent, and of two repairs as many
  -- are left.
  pub record IsGuarded (i : Intent) (g : Gate) : Type 0 where
    pub same : g.intent ≡ i
    pub repairs : g.repairs_remaining ≤ 2
    pub constrained :
        (g.decision ≡ none)
        ⊎ ((d : ExecutionDecision) × (g.decision ≡ some d) × (constraint_error services i d ≡ none))

  pay-IsGuarded :
      (i : Intent) (g : Gate) (e : GateError) → IsGuarded i g → IsGuarded i (pay services g e).0
  unfolding pay
  pay-IsGuarded i g e v = elim (Bool-cases (g.repairs_remaining == 0)) [
    | inl z ↦ rw z v
    | inr z ↦
        rw z (record {
          same = v.same;
          repairs = omega (arith, v.repairs);
          constrained = v.constrained;
        })
  ]

  record-IsGuarded :
      (i : Intent) (g : Gate) (d : ExecutionDecision)
      → constraint_error services i d ≡ none
      → IsGuarded i g
      → IsGuarded i (record_decision services g d).0
  unfolding record_decision
  record-IsGuarded i g d c v = elim (Bool-cases (store_accepts services d.plan d.revision)) [
    | inl a ↦ rw a (record { same = v.same; repairs = v.repairs; constrained = inr (d, refl, c) })
    | inr a ↦ rw a (pay-IsGuarded i g GateError.plan_refused v)
  ]

  free-IsGuarded :
      (i : Intent) (g : Gate) (d : ExecutionDecision) (o : Option GateError)
      → constraint_error services i d ≡ none
      → IsGuarded i g
      → IsGuarded i (unless_free services g d o).0
  free-IsGuarded i g d none c v = record-IsGuarded i g d c v
  free-IsGuarded i g d (some e) c v = v

  paid-IsGuarded :
      (i : Intent) (g : Gate) (d : ExecutionDecision) (o : Option GateError)
      → constraint_error services i d ≡ o
      → IsGuarded i g
      → IsGuarded i (unless_paid services g d o).0
  paid-IsGuarded i g d none c v = free-IsGuarded i g d (transition_error services d g.decision) c v
  paid-IsGuarded i g d (some e) c v = pay-IsGuarded i g e v

  parsed-IsGuarded :
      (i : Intent) (g : Gate) (p : Parsed)
      → IsGuarded i g
      → IsGuarded i (admit_parsed services g p).0
  parsed-IsGuarded i g (Parsed.parsed d) v =
      paid-IsGuarded i g d (constraint_error services g.intent d)
        (subst (λ j. constraint_error services j d ≡ constraint_error services g.intent d) v.same
          refl)
        v
  parsed-IsGuarded i g (Parsed.free_error e) v = v
  parsed-IsGuarded i g (Parsed.paid_error e) v = pay-IsGuarded i g e v

  admit-IsGuarded :
      (i : Intent) (g : Gate) (value : A) → IsGuarded i g → IsGuarded i (admit services g value).0
  unfolding admit
  admit-IsGuarded i g value v = parsed-IsGuarded i g (services.parse value) v

  reject-IsGuarded :
      (i : Intent) (g : Gate) (id : String) (e : GateError)
      → IsGuarded i g
      → IsGuarded i (reject g id e)
  reject-IsGuarded i g id e v = record {
    same = v.same;
    repairs = v.repairs;
    constrained = v.constrained;
  }

  note-IsGuarded :
      (i : Intent) (id : String) (g : Gate) (r : Result GateError ExecutionDecision)
      → IsGuarded i g
      → IsGuarded i (note_admission id (g, r))
  note-IsGuarded i id g (ok d) v = record {
    same = v.same;
    repairs = v.repairs;
    constrained = v.constrained;
  }
  note-IsGuarded i id g (err e) v = reject-IsGuarded i g id e v

  prepare_decision-IsGuarded :
      (i : Intent) (g : Gate) (id : String) (args : Option A)
      → IsGuarded i g
      → IsGuarded i (prepare_decision services g id args)
  prepare_decision-IsGuarded i g id none v = reject-IsGuarded i g id GateError.plan_invalid v
  prepare_decision-IsGuarded i g id (some a) v =
      let r = admit services g a in note-IsGuarded i id r.0 r.1 (admit-IsGuarded i g a v)

  either-IsGuarded :
      (i : Intent) (b : Bool) {g h : Gate}
      → IsGuarded i g
      → IsGuarded i h
      → IsGuarded i (if b then g else h)
  either-IsGuarded i true v w = v
  either-IsGuarded i false v w = w

  prepare_call-IsGuarded :
      (i : Intent) (g : Gate) (c : ToolCall A)
      → IsGuarded i g
      → IsGuarded i (prepare_call services g c)
  unfolding prepare_call
  prepare_call-IsGuarded i g c v = either-IsGuarded i _ v (
      either-IsGuarded i _ (reject-IsGuarded i g c.id GateError.question_required v) (
        either-IsGuarded i _ (prepare_decision-IsGuarded i g c.id c.args v)
          (either-IsGuarded i _ (reject-IsGuarded i g c.id GateError.decision_required v) v)))

  prepare_response-IsGuarded :
      (i : Intent) (g : Gate) (calls : List (ToolCall A))
      → IsGuarded i g
      → IsGuarded i (prepare_response services g calls)
  unfolding prepare_response
  prepare_response-IsGuarded i g [] v = v
  prepare_response-IsGuarded i g (c ∷ calls) v =
      prepare_response-IsGuarded i (prepare_call services g c) calls
        (prepare_call-IsGuarded i g c v)

  restored_ok : (g h : Gate) → ◌≡◌ {A = Result GateError Gate} (ok h) (ok g) → h ≡ g
  restored_ok g h e = ground (arith, e)

  restored-IsGuarded :
      (i : Intent) (requires answered : Bool) (d : ExecutionDecision) (g : Gate)
      → restored_gate services i requires answered d ≡ ok g
      → IsGuarded i g
  unfolding restored_gate gate
  restored-IsGuarded i requires answered d g h =
      elim (Option-cases (constraint_error services i d)) [
        | inl e ↦
            subst (IsGuarded i)
              (restored_ok g (record (gate i requires answered) { decision = some d }) (rw e at h))
              (record { same = refl; repairs = omega arith; constrained = inr (d, refl, e) })
        | inr e ↦ let w = rw e.1 at h in cc
      ]

  -- The gates that come of a new one, or of one with a restored decision, by admissions and prepared responses, in any order.
  pub data Reach (i : Intent) : Gate → Type 0 where
    first : (requires answered : Bool) → Reach i (gate i requires answered)
    restores :
        {g : Gate} (requires answered : Bool) (d : ExecutionDecision)
        → restored_gate services i requires answered d ≡ ok g
        → Reach i g
    admits : {g : Gate} (value : A) → Reach i g → Reach i (admit services g value).0
    prepares :
        {g : Gate} (calls : List (ToolCall A))
        → Reach i g
        → Reach i (prepare_response services g calls)

  Reach-IsGuarded : (i : Intent) {g : Gate} → Reach i g → IsGuarded i g
  unfolding gate
  Reach-IsGuarded i (first requires answered) = record {
    same = refl;
    repairs = omega arith;
    constrained = inl refl;
  }
  Reach-IsGuarded i (restores requires answered d h) = restored-IsGuarded i requires answered d _ h
  Reach-IsGuarded i (admits value r) = admit-IsGuarded i _ value (Reach-IsGuarded i r)
  Reach-IsGuarded i (prepares calls r) = prepare_response-IsGuarded i _ calls (Reach-IsGuarded i r)

  handled_inv :
      (g : Gate) (name id : String)
      → guard g name id ≡ Guarded.handled
      → str_eq name "ask_user" ≡ false
      → str_eq name "execution_decision" ≡ false
      → (awaits_answer g name ≡ false)
        × (has g.rejected_tool_codes id ≡ false)
        × (is_decided g.decision ≡ true)
  unfolding guard allows
  handled_inv g name id h ask decide = ground (arith, h, ask, decide)

  -- After any admissions and responses, the middleware passes a call of an operational tool on, one
  -- that neither asks the user nor decides, only when no required answer is missing, the call was not
  -- rejected, and a decision was admitted or restored that passes every constraint of the user's intent.
  pub handled_decided :
      (i : Intent) {g : Gate} (name id : String)
      → Reach i g
      → guard g name id ≡ Guarded.handled
      → str_eq name "ask_user" ≡ false
      → str_eq name "execution_decision" ≡ false
      → (awaits_answer g name ≡ false)
        × (has g.rejected_tool_codes id ≡ false)
        × ((d : ExecutionDecision) × (g.decision ≡ some d) × (constraint_error services i d ≡ none))
  handled_decided i {g} name id r h ask decide =
      let (waits, kept, decided) = handled_inv g name id h ask decide in
      (
        waits,
        kept,
        elim (Reach-IsGuarded i r).constrained [
          | inl e ↦ (let w = rw e at decided in cc)
          | inr d ↦ d
        ],
      )
