-- ===== src/Routing/Assignment/Histories.antt =====
-- Histories of the service and the ledger over one store: a call that raises is rolled back and is
-- no step.
use skail.Prelude.{
  ℕ, ◌+◌, arith, String, ◌≡◌, sym, subst, ◌∙◌, ap, none, List, [], ◌∷◌, map, Result, ok,
  returns_both, raise_if-passed, guard-passed, inl, inr, Option-cases, any,
}
use skail.Prelude.Dict.{get}
use skail.Routing.Budget.Tables.{Tables, snapshot}
use skail.Routing.Budget.Operations.{Percent, reserve}
use skail.Routing.Budget.Limits.{IsWithin}
use skail.Routing.Budget.Histories.{Step, Step-IsWithin}
use skail.Routing.Selector.Choice.{RouteSelection}
use skail.Routing.Assignment.Tables.{
  AssignmentRequest, RoutingSnapshot, TaskAssignment, BatchAssignmentResult, Store, Outcome,
  assigned, failed, from_ledger, AssignError, batch_spans_runs,
}
use skail.Routing.Assignment.Lookups.{with_escalation_baseline, decision_key}
use skail.Routing.Assignment.Persisting.{NewIds, persist}
use skail.Routing.Assignment.Service.{assign_once, assign}
use skail.Routing.Assignment.Batch.{
  Selected, Plan, persist_all, commit_batch, decide_batch, assign_batch, or_replay, other_run,
  validate_all, batch_key, lead_request, plan_all, initial_plan,
}
use skail.Routing.Assignment.Traces.{
  from_ledger-ok, Persists, persist-Persists, Assigns, Ends, assign_once_cases,
}
use skail.Routing.Assignment.Releases.{fallback_source-IsOnFile, release_cases}
use skail.Routing.Assignment.Accounts.{reserve-IsWithin, Persists-IsWithin, Assigns-IsWithin}
use skail.Routing.Assignment.Retries.{assign-IsFirstFresh}
use skail.Routing.Assignment.Sequences.{IsOrdered, append_events-IsOrdered}

-- The limits hold, and the events of each run are numbered in their order.
pub record IsSound (st : Store) : Type 0 where
  pub within : IsWithin st.ledger
  pub ordered : IsOrdered st.events

Persists-IsSound :
    (p : Percent) (ids : NewIds) (q : AssignmentRequest) (s : RouteSelection) (key health : String)
    (st st' : Store)
    → Persists p ids q s key health st st'
    → IsSound st
    → IsSound st'
Persists-IsSound p ids q s key health st st' w v = record {
  within = Persists-IsWithin p ids q s key health st st' w v.within;
  ordered =
      subst (λ (x : Store). IsOrdered x.events) (sym w.written)
        (append_events-IsOrdered q.run_id _ st.events v.ordered);
}

freed-IsOrdered :
    (p : Percent) (ids : NewIds) (q : AssignmentRequest) (st : Store) (a : TaskAssignment)
    (st' : Store) (t : Assigns p ids q st a st')
    → IsOrdered st.events
    → IsOrdered t.freed.events
freed-IsOrdered p ids q st a st' t o =
    elim (release_cases p q t.source st t.freed (fallback_source-IsOnFile st q t.source t.found)
      t.frees) [
        | inl (same, _) ↦ subst (λ (x : Store). IsOrdered x.events) (sym same) o
        | inr (s, _, r, _) ↦
            subst (λ (x : Store). IsOrdered x.events) (sym r.written)
              (append_events-IsOrdered q.run_id _ st.events o)
      ]

Ends-IsSound :
    (p : Percent) (ids : NewIds) (q : AssignmentRequest) (st : Store) (o : Outcome) (st' : Store)
    → Ends p ids q st o st'
    → IsSound st
    → IsSound st'
Ends-IsSound p ids q st (failed f) st' same v = subst IsSound (sym same) v
Ends-IsSound p ids q st (assigned a) st' t v = record {
  within = Assigns-IsWithin p ids q st st' a t v.within;
  ordered =
      subst (λ (x : Store). IsOrdered x.events) (sym t.persists.written)
        (append_events-IsOrdered q.run_id _ t.freed.events
          (freed-IsOrdered p ids q st a st' t v.ordered));
}

assign_once-IsSound :
    (p : Percent) (ids : NewIds) (q : AssignmentRequest) (r : RoutingSnapshot) (st : Store)
    (o : Outcome) (st' : Store)
    → assign_once p ids q r st ≡ ok (o, st')
    → IsSound st
    → IsSound st'
assign_once-IsSound p ids q r st o st' h v = elim (assign_once_cases p ids q r st o st' h).1 [
  | inl (_, _, _, same) ↦ subst IsSound (sym same) v
  | inr (_, e) ↦ Ends-IsSound p ids (with_escalation_baseline st q) st o st' e v
]

persist_all-IsSound :
    (p : Percent) (ids : ℕ → NewIds) (n : ℕ) (selections : List Selected) (st : Store)
    (done : List TaskAssignment × Store)
    → persist_all p ids n selections st ≡ ok done
    → IsSound st
    → IsSound done.1
unfolding persist_all
persist_all-IsSound p ids n [] st done h v = subst IsSound (ends h) v
  where
    ends :
        ◌≡◌ {A = Result AssignError (List TaskAssignment × Store)} (ok ([], st)) (ok done)
        → st ≡ done.1
    ends h = ground (arith, h)
persist_all-IsSound p ids n (x ∷ selections) st done h v =
    let first =
      persist p (ids n) x.request x.selection (decision_key x.request) x.health_revision st in
    let (a, h1, e) = returns_both _ first h in
    let (rest, h2, e') = returns_both _ (persist_all p ids (n + 1) selections a.1) h1 in
    let w = (persist-Persists p (ids n) x.request x.selection _ x.health_revision st a.0 a.1 e).1 in
    subst IsSound (ends (a.0 ∷ rest.0) rest h2) (
      persist_all-IsSound p ids (n + 1) selections a.1 rest e'
        (Persists-IsSound p (ids n) x.request x.selection _ x.health_revision st a.1 w v))
  where
    ends :
        (made : List TaskAssignment) (rest : List TaskAssignment × Store)
        → ◌≡◌ {A = Result AssignError (List TaskAssignment × Store)} (ok (made, rest.1)) (ok done)
        → rest.1 ≡ done.1
    ends made rest h = ground (arith, h)

module _ (p : Percent) (lead_id : String) (ids : ℕ → NewIds) where
  -- The store of a returned batch is the one that the writes have left, but for the batch's row.
  abbrev Batched : Type 0
  Batched = BatchAssignmentResult × Store

  returned : (x y : Batched) → ◌≡◌ {A = Result AssignError Batched} (ok x) (ok y) → x ≡ y
  returned x y h = ground (arith, h)

  commit-IsSound :
      (key run_id : String) (allowance : ℕ) (requests : List AssignmentRequest) (st : Store)
      (plan : Plan) (selections : List Selected) (done : Batched)
      → commit_batch p lead_id ids key run_id allowance requests st
          (record plan { selections = selections })
        ≡ ok done
      → IsSound st
      → IsSound done.1
  commit-IsSound key run_id allowance requests st plan [] done h v =
      subst IsSound (ap (λ (r : Batched). r.1) (returned _ done h)) v
  commit-IsSound key run_id allowance requests st plan (x ∷ selections) done h v =
      let request = lead_request lead_id run_id allowance in
      let (lead, h1, e1) = returns_both _ (from_ledger (reserve p request none 0 st.ledger)) h in
      let reserved : Store = record st { ledger = lead.1 } in
      let (made, h2, e2) = returns_both _ (persist_all p ids 0 (x ∷ selections) reserved) h1 in
      let w = persist_all-IsSound p ids 0 (x ∷ selections) reserved made e2 (record {
        within =
            reserve-IsWithin p request none st.ledger lead.1 lead.0 (from_ledger-ok _ lead e1)
              v.within;
        ordered = v.ordered;
      }) in
      subst IsSound (ap (λ (r : Batched). r.1) (returned _ done h2))
        (record { within = w.within; ordered = w.ordered })

  decide-IsSound :
      (q : AssignmentRequest) (requests : List AssignmentRequest)
      (candidates : AssignmentRequest → RoutingSnapshot) (allowance : ℕ) (st : Store)
      (done : Batched)
      → decide_batch p lead_id ids q requests candidates allowance st ≡ ok done
      → IsSound st
      → IsSound done.1
  unfolding decide_batch
  decide-IsSound q requests candidates allowance st done h v =
      let (s, h1, _) = returns_both _ (from_ledger (snapshot st.ledger q.run_id)) h in
      let (plan, h2, _) =
        returns_both _
          (plan_all st.ledger s candidates (map (with_escalation_baseline st) (q ∷ requests))
            (initial_plan s allowance))
          h1 in
      commit-IsSound (batch_key q requests) q.run_id allowance (q ∷ requests) st plan
        plan.selections done h2 v

  assign_batch-IsSound :
      (requests : List AssignmentRequest) (candidates : AssignmentRequest → RoutingSnapshot)
      (allowance : ℕ) (st : Store) (done : Batched)
      → assign_batch p lead_id ids requests candidates allowance st ≡ ok done
      → IsSound st
      → IsSound done.1
  unfolding assign_batch
  assign_batch-IsSound [] candidates allowance st done h v =
      subst IsSound (ap (λ (r : Batched). r.1) (returned _ done h)) v
  assign_batch-IsSound (q ∷ requests) candidates allowance st done h v =
      let (_, h1) =
        raise_if-passed (any (other_run q.run_id) (q ∷ requests)) batch_spans_runs _ h in
      let decided = decide_batch p lead_id ids q requests candidates allowance st in
      let (_, h2) =
        guard-passed (validate_all st (q ∷ requests))
          (or_replay (get st.batches (batch_key q requests)) st decided) h1 in
      elim (Option-cases (get st.batches (batch_key q requests))) [
        | inl absent ↦ decide-IsSound q requests candidates allowance st done (rw absent at h2) v
        | inr (result, present) ↦
            subst IsSound
              (ap (λ (r : Batched). r.1) (returned (result, st) done (rw present at h2))) v
      ]

-- A single assignment with its retries, a batch, and what the ledger does on its own.
pub data ServiceStep (p : Percent) : Store → Store → Type 0 where
  assigning :
      {st st' : Store} (max_snapshot_retries : ℕ) (ids : ℕ → NewIds) (q : AssignmentRequest)
      (candidates : ℕ → RoutingSnapshot) (o : Outcome)
      → assign p max_snapshot_retries ids q candidates st ≡ ok (o, st')
      → ServiceStep p st st'
  batching :
      {st st' : Store} (lead_id : String) (ids : ℕ → NewIds) (requests : List AssignmentRequest)
      (candidates : AssignmentRequest → RoutingSnapshot) (lead_allowance_usd : ℕ)
      (result : BatchAssignmentResult)
      → assign_batch p lead_id ids requests candidates lead_allowance_usd st ≡ ok (result, st')
      → ServiceStep p st st'
  accounting :
      {st : Store} {db : Tables}
      → Step p st.ledger db
      → ServiceStep p st (record st { ledger = db })

pub data ServiceHistory (p : Percent) (st : Store) : Store → Type 0 where
  start : ServiceHistory p st st
  next :
      {st' st'' : Store}
      → ServiceHistory p st st'
      → ServiceStep p st' st''
      → ServiceHistory p st st''

step-IsSound : {p : Percent} {st st' : Store} → ServiceStep p st st' → IsSound st → IsSound st'
step-IsSound {p} {st} {st'} (assigning n ids q candidates o h) v =
    let f = assign-IsFirstFresh p ids q candidates st n in
    assign_once-IsSound p (ids f.n) q (candidates f.n) st o st' (sym f.is_result ∙ h) v
step-IsSound {p} {st} {st'} (batching lead_id ids requests candidates allowance result h) v =
    assign_batch-IsSound p lead_id ids requests candidates allowance st (result, st') h v
step-IsSound (accounting s) v = record { within = Step-IsWithin s v.within; ordered = v.ordered }

-- From a store whose limits hold and whose events are in order, any history of assignments with
-- their retries, fallbacks and replays, of batches with their lead allowances, and of reservations,
-- releases and covered settlements leaves every limit above what its run has spent and reserved,
-- and each run's events numbered in their order without repetition.
pub ServiceHistory-IsSound :
    {p : Percent} {st st' : Store} → ServiceHistory p st st' → IsSound st → IsSound st'
ServiceHistory-IsSound start v = v
ServiceHistory-IsSound (next h s) v = step-IsSound s (ServiceHistory-IsSound h v)
