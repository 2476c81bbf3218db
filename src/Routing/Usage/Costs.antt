-- ===== src/Routing/Usage/Costs.antt =====
-- The cost that a reconciliation shows is the cost that it settles.
use skail.Prelude.{
  ℕ, String, ◌≡◌, sym, subst, ◌∙◌, ap, inl, inr, Bool, true, false, Option, none, some, List, [],
  ◌∷◌, arith, str_eq, eq_iff, any, Option-cases, Bool-cases, keep, max, Result, ok, returns_both,
}
use skail.Routing.Budget.Tables.{Reservation}
use skail.Routing.Assignment.Tables.{AssignmentRow, PricingEvidence}
use skail.Routing.Assignment.Lookups.{find_assignment}
use skail.Routing.Usage.Tables.{
  ambiguous, call_eq, ProviderCall, Failure, CallUsage, UsageStore, UsageError, find_call, run_of,
}
use skail.Routing.Usage.Settling.{
  of_assignment, known_cost, has_unaccounted_calls, is_unaccounted, is_recorded, all_measured,
  attempt_cost, settlement_of,
}
use skail.Routing.Usage.Reconciling.{
  CallReconciliationResult, reconciled_cost, reconciliation_state, preview_ambiguous_call,
  state_of_row, state_of_failure, result_of, unpriced, is_text, session_of,
}
use skail.Routing.Usage.Marks.{call_eq-eq, found_id}
use skail.Routing.Usage.Once.{found_assignment_id}

-- A previewed call is ambiguous and of the assignment, and the cost is that of the assignment.
pub record Previews (u : UsageStore) (call_id : String) (r : CallReconciliationResult)
    : Type 0 where
  pub call : ProviderCall
  pub found : find_call call_id u.calls ≡ some call
  pub doubtful : call.status ≡ ambiguous
  pub row : AssignmentRow
  pub owner : find_assignment call.assignment_id u.service.assignments ≡ some row
  pub named : r.assignment_id ≡ row.assignment_id
  pub cost : r.estimated_attempt_cost_usd ≡ reconciled_cost row u

abbrev Seen : Type 0
Seen = CallReconciliationResult × Bool

same_seen : (x y : Seen) → ◌≡◌ {A = Result UsageError Seen} (ok x) (ok y) → x ≡ y
same_seen x y h = ground (arith, h)

module _ (u : UsageStore) (a : AssignmentRow) (seen : Seen) where
  -- the assignment that the result names, and its cost
  abbrev IsOf : Type 0
  IsOf =
      (seen.0.assignment_id ≡ a.assignment_id)
      × (seen.0.estimated_attempt_cost_usd ≡ reconciled_cost a u)

  result-IsOf : (f : Failure) (r : Option Reservation) → result_of a u f r ≡ ok seen → IsOf
  result-IsOf f none h = cc
  result-IsOf f (some r) h =
      let same = sym (same_seen _ seen h) in
      (
        ap (λ (x : Seen). x.0.assignment_id) same,
        ap (λ (x : Seen). x.0.estimated_attempt_cost_usd) same,
      )

  failure-IsOf : (f : Option Failure) → state_of_failure a u f ≡ ok seen → IsOf
  failure-IsOf none h = cc
  failure-IsOf (some f) h = elim (Bool-cases (unpriced a)) [
    | inl free ↦ let g = rw free at h in cc
    | inr priced ↦ result-IsOf f _ (rw priced at h)
  ]

  row-IsOf :
      (session_id : String) (c : ProviderCall)
      → state_of_row u session_id c (some a) ≡ ok seen
      → (c.status ≡ ambiguous) × IsOf
  row-IsOf session_id c h =
      elim (Bool-cases
        (is_text (session_of u.service (run_of u.service a.assignment_id)) session_id)) [
          | inr foreign ↦ let g = rw foreign at h in cc
          | inl own ↦ elim (Bool-cases (call_eq c.status ambiguous)) [
            | inr certain ↦ let g = rw (own, certain) at h in cc
            | inl doubtful ↦
                (call_eq-eq c.status ambiguous doubtful, failure-IsOf _ (rw (own, doubtful) at h))
          ]
        ]

previews :
    (u : UsageStore) (session_id call_id : String) (seen : Seen)
    → reconciliation_state u session_id call_id ≡ ok seen
    → Previews u call_id seen.0
unfolding reconciliation_state
previews u session_id call_id seen h = elim (Option-cases (find_call call_id u.calls)) [
  | inl absent ↦ let g = rw (absent, reconciliation_state) at h in cc
  | inr (c, found) ↦ elim (Option-cases (find_assignment c.assignment_id u.service.assignments)) [
    | inl unassigned ↦ let g = rw (found, reconciliation_state, unassigned) at h in cc
    | inr (a, owner) ↦
        let (doubtful, is_of) =
          row-IsOf u a seen session_id c (rw (found, reconciliation_state, owner) at h) in
        record {
          call = c;
          found = found;
          doubtful = doubtful;
          row = a;
          owner = owner;
          named = is_of.0;
          cost = is_of.1;
        }
  ]
]

any_found :
    (p : ProviderCall → Bool) (id : String) (calls : List ProviderCall) (c : ProviderCall)
    → find_call id calls ≡ some c
    → p c ≡ true
    → any p calls ≡ true
unfolding find_call
any_found p id [] c h e = cc
any_found p id (x ∷ calls) c h e = elim (Bool-cases (str_eq x.call_id id)) [
  | inl here ↦ let same : x ≡ c = ground (arith, (rw here at h)) in ground (arith, ap p same ∙ e)
  | inr later ↦ ground (arith, any_found p id calls c (rw later at h) e)
]

unmeasured_cost :
    (p : PricingEvidence) (estimated : ℕ) (calls : List CallUsage) (unaccounted : Bool)
    → unaccounted ≡ true
    → attempt_cost p estimated calls unaccounted ≡ max estimated (known_cost p calls)
unfolding attempt_cost all_measured
unmeasured_cost p estimated calls unaccounted e = ground (arith, e)

some_row : {a b : AssignmentRow} → some a ≡ some b → a ≡ b
some_row h = ground (arith, h)

-- The row behind a preview is the one that its result names.
named_row :
    (u : UsageStore) (call_id : String) (r : CallReconciliationResult) (a : AssignmentRow)
    (v : Previews u call_id r)
    → find_assignment r.assignment_id u.service.assignments ≡ some a
    → v.row ≡ a
named_row u call_id r a v owned =
    let rows = u.service.assignments in
    let same = v.named ∙ found_assignment_id v.call.assignment_id rows v.row v.owner in
    some_row (sym v.owner ∙ ap (λ id. find_assignment id rows) (sym same) ∙ owned)

unaccounted_here :
    (u : UsageStore) (call_id : String) (r : CallReconciliationResult) (a : AssignmentRow)
    (v : Previews u call_id r) (calls : List CallUsage)
    → v.row ≡ a
    → is_recorded calls call_id ≡ false
    → has_unaccounted_calls a.assignment_id calls u.calls ≡ true
unfolding has_unaccounted_calls
unaccounted_here u call_id r a v calls same unrecorded =
    let of_row = found_assignment_id v.call.assignment_id u.service.assignments v.row v.owner in
    let id_same = found_id call_id u.calls v.call v.found in
    any_found (is_unaccounted a.assignment_id calls) call_id u.calls v.call v.found (
      ground (
        arith,
        (eq_iff v.call.assignment_id a.assignment_id).1
            (sym of_row ∙ ap (λ (x : AssignmentRow). x.assignment_id) same),
        ap (λ s. call_eq s ambiguous) v.doubtful,
        ap (is_recorded calls) id_same ∙ unrecorded,
      ))

same_result :
    {x y : CallReconciliationResult}
    → ◌≡◌ {A = Result UsageError CallReconciliationResult} (ok x) (ok y)
    → x ≡ y
same_result h = ground (arith, h)

-- While a previewed call has no usage on record, a settlement of its attempt would charge exactly
-- the cost that the preview shows: where the assignment's row and its payload hold the same estimate.
pub previewed_cost_settles :
    (u : UsageStore) (session_id call_id : String) (r : CallReconciliationResult)
    (a : AssignmentRow) (reconciled : Bool)
    → preview_ambiguous_call u session_id call_id ≡ ok r
    → find_assignment r.assignment_id u.service.assignments ≡ some a
    → is_recorded (keep (of_assignment a.assignment_id) u.usages) call_id ≡ false
    → a.payload.assignment.estimated_attempt_cost_usd ≡ a.estimated_cost_usd
    → (settlement_of a reconciled u).usage.cost_usd ≡ some r.estimated_attempt_cost_usd
unfolding preview_ambiguous_call settlement_of reconciled_cost
previewed_cost_settles u session_id call_id r a reconciled h owned unrecorded frozen =
    let (seen, h1, e) = returns_both _ (reconciliation_state u session_id call_id) h in
    let v =
      subst (Previews u call_id) (same_result {x = seen.0} {y = r} h1)
        (previews u session_id call_id seen e) in
    let same = named_row u call_id r a v owned in
    let calls = keep (of_assignment a.assignment_id) u.usages in
    let p = a.payload.pricing_evidence in
    ap some (
      unmeasured_cost p a.payload.assignment.estimated_attempt_cost_usd calls _
        (unaccounted_here u call_id r a v calls same unrecorded)
      ∙ ap (λ n. max n (known_cost p calls)) frozen
      ∙ sym (v.cost ∙ ap (λ x. reconciled_cost x u) same))
