-- ===== src/Routing/Assignment/Replays.antt =====
-- A decision is made once for an attempt: the later calls find it on file.
use skail.Prelude.{
  String, ◌≡◌, refl, sym, subst, ◌∙◌, ap, true, Option, none, some, List, [], ◌∷◌, ◌++◌, arith, ok,
  Bool-cases, inl, inr, eq_refl, ◌==◌,
}
use skail.Routing.Budget.Operations.{Percent}
use skail.Routing.Selector.Requirements.{RoutingRequirements}
use skail.Routing.Assignment.Tables.{
  AssignmentRequest, RoutingSnapshot, TaskAssignment, AssignmentRow, Store, assigned,
}
use skail.Routing.Assignment.Lookups.{
  decision_key, find_row, existing_assignment, with_escalation_baseline, validate_ownership,
  prior_fit, stored,
}
use skail.Routing.Assignment.Persisting.{NewIds, assignment_row}
use skail.Routing.Assignment.Service.{assign_once}
use skail.Routing.Assignment.Traces.{Assigns, assign_once_cases}
use skail.Routing.Assignment.Releases.{fallback_source-IsOnFile, release_cases}

-- The baseline replaces the requirements, and nothing else of a request.
pub baseline_shape :
    (st : Store) (q : AssignmentRequest)
    → (r : RoutingRequirements) × (with_escalation_baseline st q ≡ record q { requirements = r })
unfolding with_escalation_baseline
baseline_shape st q = elim (Bool-cases (q.attempt_number == 2)) [
  | inl second ↦ (
    record q.requirements {
      escalated = true;
      failed_capability_fit = prior_fit st.attempts q.task_id st.assignments none;
    },
    rw second refl,
  )
  | inr first ↦ (q.requirements, rw first refl)
]

baseline_key :
    (st : Store) (q : AssignmentRequest)
    → decision_key (with_escalation_baseline st q) ≡ decision_key q
unfolding decision_key
baseline_key st q = let (r, e) = baseline_shape st q in ap decision_key e

find_row-snoc :
    (rows : List AssignmentRow) (row : AssignmentRow)
    → find_row row.idempotency_key rows ≡ none
    → find_row row.idempotency_key (rows ++ row ∷ []) ≡ some row
unfolding find_row
find_row-snoc [] row h = ground (arith, eq_refl row.idempotency_key)
find_row-snoc (a ∷ rows) row h = ground (arith, find_row-snoc rows row)

find_row-append :
    (key : String) (rows more : List AssignmentRow) (row : AssignmentRow)
    → find_row key rows ≡ some row
    → find_row key (rows ++ more) ≡ some row
unfolding find_row
find_row-append key [] more row h = cc
find_row-append key (a ∷ rows) more row h = ground (arith, find_row-append key rows more row, h)

stored-some :
    (row : Option AssignmentRow) (a : TaskAssignment)
    → stored row ≡ some a
    → (x : AssignmentRow) × (row ≡ some x)
stored-some none a h = cc
stored-some (some x) a h = (x, refl)

-- What is on file is found when more assignments have been added.
still_stored :
    (st later : Store) (more : List AssignmentRow) (key : String) (a : TaskAssignment)
    → later.assignments ≡ st.assignments ++ more
    → existing_assignment st key ≡ some a
    → existing_assignment later key ≡ some a
unfolding existing_assignment
still_stored st later more key a grown h =
    let (row, found) = stored-some (find_row key st.assignments) a h in
    ap (λ rows. stored (find_row key rows)) grown
    ∙ ap stored (find_row-append key st.assignments more row found ∙ sym found)
    ∙ h

stored-none : (row : Option AssignmentRow) → stored row ≡ none → row ≡ none
stored-none none h = refl
stored-none (some a) h = cc

-- The tables that the ownership of an attempt is read from.
pub record SameOwners (st st' : Store) : Type 0 where
  pub attempts : st'.attempts ≡ st.attempts
  pub task_runs : st'.task_runs ≡ st.task_runs
  pub run_sessions : st'.run_sessions ≡ st.run_sessions

validate_ownership-SameOwners :
    (q : AssignmentRequest) (st st' : Store)
    → SameOwners st st'
    → validate_ownership st' q ≡ validate_ownership st q
unfolding validate_ownership
validate_ownership-SameOwners q st st' same =
    rw (same.attempts, same.task_runs, same.run_sessions) refl

module _ (p : Percent) (ids : NewIds) (q : AssignmentRequest) (st st' : Store)
    (a : TaskAssignment) where
  -- The release of a source leaves all but the ledger and the events.
  freed_same :
      (t : Assigns p ids q st a st')
      → SameOwners st t.freed × (t.freed.assignments ≡ st.assignments)
  freed_same t =
      elim (release_cases p q t.source st t.freed (fallback_source-IsOnFile st q t.source t.found)
        t.frees) [
          | inl (same, _) ↦
              subst (λ (s : Store). SameOwners st s × (s.assignments ≡ st.assignments)) (sym same)
                (record { attempts = refl; task_runs = refl; run_sessions = refl }, refl)
          | inr (s, _, r, _) ↦
              subst (λ (s : Store). SameOwners st s × (s.assignments ≡ st.assignments))
                (sym r.written)
                (record { attempts = refl; task_runs = refl; run_sessions = refl }, refl)
        ]

  Assigns-SameOwners : Assigns p ids q st a st' → SameOwners st st'
  Assigns-SameOwners t = subst (SameOwners st) (sym t.persists.written) (
      let same = (freed_same t).0 in
      record {
        attempts = same.attempts;
        task_runs = same.task_runs;
        run_sessions = same.run_sessions;
      })

  -- The new row is found under the key of the decision.
  Assigns-stored :
      (t : Assigns p ids q st a st')
      → existing_assignment st (decision_key q) ≡ none
      → existing_assignment st' (decision_key q) ≡ some a
  unfolding existing_assignment
  Assigns-stored t absent =
      let row = assignment_row ids q t.selection (decision_key q) t.health in
      let absent_row = stored-none (find_row (decision_key q) st.assignments) absent in
      ap (λ (s : Store). stored (find_row (decision_key q) s.assignments)) t.persists.written
      ∙ ap (λ rows. stored (find_row (decision_key q) (rows ++ row ∷ []))) (freed_same t).1
      ∙ ap stored (find_row-snoc st.assignments row absent_row)
      ∙ ap some (sym t.made)

replayed :
    (p : Percent) (ids : NewIds) (q : AssignmentRequest) (r : RoutingSnapshot) (st : Store)
    (a : TaskAssignment)
    → validate_ownership st q ≡ ok tt
    → existing_assignment st (decision_key q) ≡ some a
    → assign_once p ids q r st ≡ ok (assigned a, st)
unfolding assign_once
replayed p ids q r st a owned present = rw (owned, present) refl

-- The store that a call leaves describes the attempt and has the decision on file.
assigned_on_file :
    (p : Percent) (ids : NewIds) (q : AssignmentRequest) (r : RoutingSnapshot) (st st' : Store)
    (a : TaskAssignment)
    → assign_once p ids q r st ≡ ok (assigned a, st')
    → (validate_ownership st' q ≡ ok tt) × (existing_assignment st' (decision_key q) ≡ some a)
assigned_on_file p ids q r st st' a h =
    let (owned, ended) = assign_once_cases p ids q r st (assigned a) st' h in
    elim ended [
      | inl (b, present, same, kept) ↦ (
        ap (λ (s : Store). validate_ownership s q) kept ∙ owned,
        ap (λ (s : Store). existing_assignment s (decision_key q)) kept
            ∙ present
            ∙ ap some (sym (same_assignment same)),
      )
      | inr (absent, t) ↦
          let b = with_escalation_baseline st q in
          let key = baseline_key st q in
          (
            validate_ownership-SameOwners q st st' (Assigns-SameOwners p ids b st st' a t) ∙ owned,
            ap (existing_assignment st') (sym key)
                ∙ Assigns-stored p ids b st st' a t (ap (existing_assignment st) key ∙ absent),
          )
    ]
  where
    same_assignment : {a b : TaskAssignment} → assigned a ≡ assigned b → a ≡ b
    same_assignment h = ground (arith, h)

-- A request that was given an assignment gets the same one again, and the later call writes nothing:
-- in any store that has the same attempts, tasks and runs and only more assignments than the first
-- call left, whatever its ledger and events and the routing inputs are by then.
pub assign_once_idempotent :
    (p : Percent) (ids ids' : NewIds) (q : AssignmentRequest) (r r' : RoutingSnapshot)
    (st st' later : Store) (more : List AssignmentRow) (a : TaskAssignment)
    → assign_once p ids q r st ≡ ok (assigned a, st')
    → SameOwners st' later
    → later.assignments ≡ st'.assignments ++ more
    → assign_once p ids' q r' later ≡ ok (assigned a, later)
assign_once_idempotent p ids ids' q r r' st st' later more a h owners grown =
    let (owned, on_file) = assigned_on_file p ids q r st st' a h in
    replayed p ids' q r' later a (validate_ownership-SameOwners q st' later owners ∙ owned)
      (still_stored st' later more (decision_key q) a grown on_file)
