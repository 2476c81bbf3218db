-- ===== src/Routing/Assignment/Traces.antt =====
-- What a call of `_assign_once` that returned has read and written.
use skail.Prelude.{
  String, ◌≡◌, refl, sym, subst, ◌∙◌, ap, ◌&&◌, not, Option, none, some, List, [], ◌∷◌, ◌++◌, arith,
  Result, ok, err, returns_both, raise_if-passed, guard-passed, Bool-cases, Option-cases, inl, inr,
  ◌⊎◌,
}
use skail.Routing.Budget.Tables.{ReservationResult, Tables, BudgetSnapshot, LedgerError, snapshot}
use skail.Routing.Budget.Operations.{Percent, reserve}
use skail.Routing.Selector.Choice.{RouteSelection, Route, SelectorError, select_model}
use skail.Routing.Assignment.Tables.{
  AssignmentRequest, RoutingSnapshot, TaskAssignment, AssignmentRow, Store, AssignError, Outcome,
  assigned, failed, from_ledger, from_selector,
}
use skail.Routing.Assignment.Lookups.{
  decision_key, existing_assignment, with_escalation_baseline, FallbackSource, fallback_source,
  validate_ownership,
}
use skail.Routing.Assignment.Persisting.{
  NewIds, reservation_request, task_assignment, assignment_row, create_assignment, persist,
  release_if, append_events, selection_events,
}
use skail.Routing.Assignment.Service.{
  available_for, allows_unpriced_manual, model_differs, commit, conclude, assign_new, assign_once,
}
use skail.Routing.Selector.Exclusion.{is_none}

pub from_ledger-ok :
    {A : Type 0} (m : Result LedgerError A) (v : A) → from_ledger m ≡ ok v → m ≡ ok v
from_ledger-ok (ok w) v h = ground (arith, h)
from_ledger-ok (err e) v h = cc

pub from_selector-ok :
    {A : Type 0} (m : Result SelectorError A) (v : A) → from_selector m ≡ ok v → m ≡ ok v
from_selector-ok (ok w) v h = ground (arith, h)
from_selector-ok (err e) v h = cc

-- The writes of `_persist`.
pub record Persists (p : Percent) (ids : NewIds) (q : AssignmentRequest) (s : RouteSelection)
    (key health : String) (st st' : Store) : Type 0 where
  pub result : ReservationResult
  pub ledger : Tables
  pub granted :
      reserve p (reservation_request ids q s.candidate) q.task_limit_usd 0 st.ledger
      ≡ ok (result, ledger)
  pub created :
      create_assignment (assignment_row ids q s key health) st.attempts st.assignments
      ≡ ok (st.assignments ++ assignment_row ids q s key health ∷ [])
  pub written : st' ≡ record st {
    ledger = ledger;
    assignments = st.assignments ++ assignment_row ids q s key health ∷ [];
    events =
        append_events q.run_id
          (selection_events q (task_assignment ids q s) result.warning_crossed)
          st.events;
  }

created_row :
    (row : AssignmentRow) (st : Store) (rows : List AssignmentRow)
    → create_assignment row st.attempts st.assignments ≡ ok rows
    → rows ≡ st.assignments ++ row ∷ []
unfolding create_assignment
created_row row st rows h = ground (arith, h)

pub persist-Persists :
    (p : Percent) (ids : NewIds) (q : AssignmentRequest) (s : RouteSelection) (key health : String)
    (st : Store) (a : TaskAssignment) (st' : Store)
    → persist p ids q s key health st ≡ ok (a, st')
    → (a ≡ task_assignment ids q s) × Persists p ids q s key health st st'
unfolding persist
persist-Persists p ids q s key health st a st' h =
    let (r, h1, e1) = returns_both _ (from_ledger _) h in
    let (rows, h2, e2) = returns_both _ (create_assignment _ _ _) h1 in
    let same = created_row (assignment_row ids q s key health) st rows e2 in
    (
      ground (arith, h2),
      record {
        result = r.0;
        ledger = r.1;
        granted = from_ledger-ok _ r e1;
        created = e2 ∙ ap ok same;
        written = ground (arith, h2, same);
      },
    )

-- The way to a new assignment: the fallback's reservation was freed, and then all was written.
pub record Assigns (p : Percent) (ids : NewIds) (q : AssignmentRequest) (st : Store)
    (a : TaskAssignment) (st' : Store) : Type 0 where
  pub source : Option FallbackSource
  pub found : fallback_source st q ≡ ok source
  pub freed : Store
  pub frees : release_if p q source st ≡ ok freed
  pub selection : RouteSelection
  pub health : String
  pub made : a ≡ task_assignment ids q selection
  pub persists : Persists p ids q selection (decision_key q) health freed st'

-- How a call that returns ends: with a failure that has written nothing, or a new assignment.
abbrev pub Ends : Percent → NewIds → AssignmentRequest → Store → Outcome → Store → Type 0
Ends p ids q st (failed f) st' = st' ≡ st
Ends p ids q st (assigned a) st' = Assigns p ids q st a st'

returned :
    (o o' : Outcome) (st st' : Store)
    → ◌≡◌ {A = Result AssignError (Outcome × Store)} (ok (o, st)) (ok (o', st'))
    → ◌≡◌ {A = Outcome × Store} (o, st) (o', st')
returned o o' st st' h = ground (arith, h)

module _ (p : Percent) (ids : NewIds) (q : AssignmentRequest) (st : Store) where
  Ends-same :
      (o o' : Outcome) (at at' : Store)
      → ◌≡◌ {A = Result AssignError (Outcome × Store)} (ok (o, at)) (ok (o', at'))
      → Ends p ids q st o at
      → Ends p ids q st o' at'
  Ends-same o o' at at' h = subst (λ r. Ends p ids q st r.0 r.1) (returned o o' at at' h)

  commit-Ends :
      (source : Option FallbackSource) (sel : RouteSelection) (health : String) (o : Outcome)
      (st' : Store)
      → fallback_source st q ≡ ok source
      → commit p ids q source sel (decision_key q) health st ≡ ok (o, st')
      → Ends p ids q st o st'
  unfolding commit
  commit-Ends source sel health o st' e h =
      let (freed, h1, e1) = returns_both _ (release_if p q source st) h in
      let (r, h2, e2) = returns_both _ (persist p ids q sel (decision_key q) health freed) h1 in
      let (made, persists) =
        persist-Persists p ids q sel (decision_key q) health freed r.0 r.1 e2 in
      Ends-same (assigned r.0) o r.1 st' h2 (record {
        source = source;
        found = e;
        freed = freed;
        frees = e1;
        selection = sel;
        health = health;
        made = made;
        persists = persists;
      })

  conclude-Ends :
      (seen : BudgetSnapshot) (source : Option FallbackSource) (health : String) (route : Route)
      (o : Outcome) (st' : Store)
      → fallback_source st q ≡ ok source
      → conclude p ids q seen source (decision_key q) health st route ≡ ok (o, st')
      → Ends p ids q st o st'
  conclude-Ends seen source health (Route.no_qualified_model f) o st' e h =
      Ends-same (failed f) o st st' h refl
  conclude-Ends seen source health (Route.selected sel) o st' e h =
      elim (Bool-cases
        (is_none sel.candidate.estimated_cost_usd && not (allows_unpriced_manual q seen))) [
          | inl priced ↦ Ends-same _ o st st' (rw priced at h) refl
          | inr unpriced ↦ elim (Bool-cases (model_differs sel.candidate source)) [
            | inl differs ↦ Ends-same _ o st st' (rw (unpriced, differs) at h) refl
            | inr same ↦ commit-Ends source sel health o st' e (rw (unpriced, same) at h)
          ]
        ]

  assign_new-Ends :
      (r : RoutingSnapshot) (o : Outcome) (st' : Store)
      → assign_new p ids q r st ≡ ok (o, st')
      → Ends p ids q st o st'
  unfolding assign_new
  assign_new-Ends r o st' h =
      let (source, h1, e1) = returns_both _ (fallback_source st q) h in
      let (seen, h2, e2) = returns_both _ (from_ledger (snapshot st.ledger q.run_id)) h1 in
      let (fresh, h3) = raise_if-passed _ _ _ h2 in
      let (route, h4, e4) =
        returns_both _
          (from_selector (
            select_model r.candidates q.requirements (available_for st.ledger q seen source)
              q.manual_model))
          h3 in
      conclude-Ends seen source r.health_revision route o st' e1 h4

-- A call that returns has found the decision on file and written nothing, or it has decided.
pub assign_once_cases :
    (p : Percent) (ids : NewIds) (q : AssignmentRequest) (r : RoutingSnapshot) (st : Store)
    (o : Outcome) (st' : Store)
    → assign_once p ids q r st ≡ ok (o, st')
    → (validate_ownership st q ≡ ok tt)
      × (((a : TaskAssignment) × (existing_assignment st (decision_key q) ≡ some a)
            × (o ≡ assigned a)
            × (st' ≡ st))
          ⊎ (existing_assignment st (decision_key q) ≡ none)
            × Ends p ids (with_escalation_baseline st q) st o st')
unfolding assign_once
assign_once_cases p ids q r st o st' h =
    let (owned, h1) = guard-passed (validate_ownership st q) _ h in
    elim (Option-cases (existing_assignment st (decision_key q))) [
      | inl absent ↦ (
        owned,
        inr (
          absent,
          assign_new-Ends p ids (with_escalation_baseline st q) st r o st' (rw absent at h1),
        ),
      )
      | inr (a, present) ↦
          let same = returned (assigned a) o st st' (rw present at h1) in
          (owned, inl (a, present, ap (λ r. r.0) (sym same), ap (λ r. r.1) (sym same)))
    ]
