-- ===== src/Routing/Usage/Moves.antt =====
-- The beginning of a call, the sweep of unreturned calls, and the settlements, as effects.
use skail.Prelude.{
  String, ◌≡◌, refl, sym, subst, inl, inr, Bool, false, Option, some, [], ◌∷◌, ◌++◌, arith,
  Option-cases, Result-cases, Result, ok, raise_if-passed, guard-passed,
}
use skail.Routing.Budget.Operations.{Percent}
use skail.Routing.Budget.Settle.{settle}
use skail.Routing.Assignment.Tables.{AssignmentRow}
use skail.Routing.Assignment.Lookups.{find_assignment}
use skail.Routing.Usage.Tables.{
  UsageStore, UsageError, run_of, budget_exhausted, no_funded_reservation, integrity_error,
}
use skail.Routing.Usage.Calls.{
  has_call, begin_in, begin_call, blocked_replay, find_execution, is_uncertain, new_call,
  is_exhausted, is_unfunded, or_new,
}
use skail.Routing.Usage.Settling.{
  settlement_of, Settled, settled_as, settlement_refused, settle_row,
}
use skail.Routing.Usage.Effects.{untouched, begun, refused}
use skail.Routing.Usage.Marks.{Becomes}

-- What a begun call has passed, and the row that it has written.
pub record Begins (call_id key : String) (a : AssignmentRow) (run_id : String) (u u' : UsageStore)
    : Type 0 where
  pub first_time : blocked_replay (find_execution a.assignment_id key u.calls) ≡ ok tt
  pub certain : is_uncertain u run_id ≡ false
  pub funded : is_unfunded u a ≡ false
  pub fresh : has_call call_id u.calls ≡ false
  pub written : u' ≡ record u { calls = u.calls ++ new_call call_id a key u.calls ∷ [] }

begun_store :
    (call_id id : String) (u u' : UsageStore)
    → ◌≡◌ {A = Result UsageError (String × UsageStore)} (ok (call_id, u)) (ok (id, u'))
    → u' ≡ u
begun_store call_id id u u' h = ground (arith, h)

begin_in-Begins :
    (call_id key : String) (a : AssignmentRow) (run_id : String) (u u' : UsageStore) (id : String)
    → begin_in call_id key a run_id u ≡ ok (id, u')
    → Begins call_id key a run_id u u'
unfolding begin_in
begin_in-Begins call_id key a run_id u u' id h =
    let (first, h1) =
      guard-passed (blocked_replay (find_execution a.assignment_id key u.calls)) _ h in
    let (certain, h2) = raise_if-passed _ _ _ h1 in
    let (_, h3) = raise_if-passed (is_exhausted u run_id) budget_exhausted _ h2 in
    let (funded, h4) = raise_if-passed (is_unfunded u a) no_funded_reservation _ h3 in
    let after : UsageStore = record u { calls = u.calls ++ new_call call_id a key u.calls ∷ [] } in
    let (fresh, h5) =
      raise_if-passed (has_call call_id u.calls) integrity_error (ok (call_id, after)) h4 in
    record {
      first_time = first;
      certain = certain;
      funded = funded;
      fresh = fresh;
      written = begun_store call_id id after u' h5;
    }

-- The assignment and the run that a begun call was for.
pub begin_call-Begins :
    (call_id new_key assignment_id : String) (execution_key : Option String) (u u' : UsageStore)
    (id : String)
    → begin_call call_id new_key assignment_id execution_key u ≡ ok (id, u')
    → (a : AssignmentRow) × (run_id : String) × (find_assignment assignment_id u.service.assignments
        ≡ some a)
      × (run_of u.service assignment_id ≡ some run_id)
      × Begins call_id (or_new execution_key new_key) a run_id u u'
unfolding begin_call
begin_call-Begins call_id new_key assignment_id execution_key u u' id h =
    elim (Option-cases (find_assignment assignment_id u.service.assignments)) [
      | inl absent ↦ let g = rw (absent, begin_call) at h in cc
      | inr (a, found) ↦ elim (Option-cases (run_of u.service assignment_id)) [
        | inl nowhere ↦ let g = rw (found, begin_call, nowhere) at h in cc
        | inr (run_id, known) ↦ (
          a,
          run_id,
          found,
          known,
          begin_in-Begins call_id (or_new execution_key new_key) a run_id u u' id
              (rw (found, begin_call, known) at h),
        )
      ]
    ]

pub begin_call-Becomes :
    (call_id new_key assignment_id : String) (execution_key : Option String) (u u' : UsageStore)
    (id : String)
    → begin_call call_id new_key assignment_id execution_key u ≡ ok (id, u')
    → Becomes u u'
begin_call-Becomes call_id new_key assignment_id execution_key u u' id h =
    let (a, run_id, _, _, b) =
      begin_call-Begins call_id new_key assignment_id execution_key u u' id h in
    subst (Becomes u) (sym b.written) (begun untouched _ b.fresh refl)

-- How a settlement ends, as a store.
abbrev pub store_of : Settled → UsageStore
store_of (settled_as u) = u
store_of (settlement_refused u) = u

pub settle_row-Becomes :
    (p : Percent) (a : AssignmentRow) (reconciled : Bool) (u : UsageStore)
    → Becomes u (store_of (settle_row p a reconciled u))
unfolding settle_row
settle_row-Becomes p a reconciled u =
    elim (Result-cases (settle p (settlement_of a reconciled u) u.service.ledger)) [
      | inl (db, e) ↦ rw (e, settle_row) untouched
      | inr (error, e) ↦ rw (e, settle_row) (refused untouched a.assignment_id)
    ]
