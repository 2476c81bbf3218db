-- ===== src/Routing/Usage/Sweeps.antt =====
-- The sweep of unreturned calls and the reconciliation, as effects.
use skail.Prelude.{
  ℕ, String, ◌≡◌, refl, sym, subst, inl, inr, Bool, true, false, not, Option, none, some, List, [],
  ◌∷◌, arith, eq_iff, eq_refl, Option-cases, Bool-cases, Result, ok, returns_both, keep, All,
  All-keep, ◌==◌,
}
use skail.Routing.Budget.Operations.{Percent}
use skail.Routing.Assignment.Lookups.{find_assignment}
use skail.Routing.Usage.Tables.{started, ambiguous, ProviderCall, UsageStore, UsageError, find_call}
use skail.Routing.Usage.Calls.{
  has_call, made_ambiguous, mark_each, is_unreturned, mark_unreturned_calls_ambiguous,
}
use skail.Routing.Usage.Settling.{Settled, settled_as, settlement_refused, settle_row}
use skail.Routing.Usage.Reconciling.{
  CallReconciliationResult, reconcile_ambiguous_call, resolve, settle_last, settle_assignment,
  settled_or_raise, reconciliation_state, set_estimated,
}
use skail.Routing.Usage.Effects.{
  untouched, doubted, estimated, Effects-trans, IsOpenFor, find_call-set_call, rewritten,
}
use skail.Routing.Usage.Marks.{Becomes, call_eq-eq, same_store}
use skail.Routing.Usage.Moves.{store_of, settle_row-Becomes}

-- No two calls share an identity.
abbrev pub IsDistinct : List ProviderCall → Type 0
IsDistinct [] = Unit
IsDistinct (c ∷ calls) = (has_call c.call_id calls ≡ false) × IsDistinct calls

abbrev pub FindsItself : List ProviderCall → ProviderCall → Type 0
FindsItself calls c = find_call c.call_id calls ≡ some c

later_finds :
    (c : ProviderCall) (all rows : List ProviderCall)
    → has_call c.call_id rows ≡ false
    → All (FindsItself all) rows
    → All (FindsItself (c ∷ all)) rows
unfolding find_call
later_finds c all [] h f = tt
later_finds c all (d ∷ rows) h f = (
  ground (arith, h, f.0, eq_iff c.call_id d.call_id, eq_iff d.call_id c.call_id),
  later_finds c all rows (ground (arith, h)) f.1,
)

pub all_find : (calls : List ProviderCall) → IsDistinct calls → All (FindsItself calls) calls
unfolding find_call
all_find [] d = tt
all_find (c ∷ calls) d =
    (ground (arith, eq_refl c.call_id), later_finds c calls calls d.0 (all_find calls d.1))

abbrev IsOpenRow : List ProviderCall → ProviderCall → Type 0
IsOpenRow calls c = IsOpenFor c.assignment_id (find_call c.call_id calls)

unreturned_open :
    (assignment_id : String) (all rows : List ProviderCall)
    → All (FindsItself all) rows
    → All (λ c. is_unreturned assignment_id c ≡ true → IsOpenRow all c) rows
unreturned_open a all [] f = tt
unreturned_open a all (c ∷ rows) f = (
  λ u.
      subst (IsOpenFor c.assignment_id) (sym f.0)
        (refl, inl (call_eq-eq c.status started (ground (arith, u)))),
  unreturned_open a all rows f.1,
)

stays_open :
    (a : String) (o : Option ProviderCall) (hit : Bool) (amount : Option ℕ)
    → IsOpenFor a o
    → IsOpenFor a (rewritten hit ambiguous amount o)
stays_open a none hit amount may = may
stays_open a (some c) true amount may = (may.0, inr refl)
stays_open a (some c) false amount may = may

rows_stay_open :
    (c : ProviderCall) (u : UsageStore) (rows : List ProviderCall)
    → All (IsOpenRow u.calls) rows
    → All (IsOpenRow (made_ambiguous c u).calls) rows
rows_stay_open c u [] open_rows = tt
rows_stay_open c u (d ∷ rows) open_rows = (
  subst (IsOpenFor d.assignment_id)
      (sym (find_call-set_call d.call_id c.call_id ambiguous c.amount_usd u.calls))
      (stays_open d.assignment_id (find_call d.call_id u.calls) _ c.amount_usd open_rows.0),
  rows_stay_open c u rows open_rows.1,
)

mark_each-Becomes :
    (rows : List ProviderCall) (u : UsageStore)
    → All (IsOpenRow u.calls) rows
    → Becomes u (mark_each rows u)
unfolding mark_each
mark_each-Becomes [] u open_rows = untouched
mark_each-Becomes (c ∷ rows) u open_rows =
    Effects-trans (doubted untouched c.call_id c.assignment_id c.amount_usd open_rows.0)
      (mark_each-Becomes rows (made_ambiguous c u) (rows_stay_open c u rows open_rows.1))

pub mark_unreturned-Becomes :
    (assignment_id : String) (u : UsageStore)
    → IsDistinct u.calls
    → Becomes u (mark_unreturned_calls_ambiguous assignment_id u).1
unfolding mark_unreturned_calls_ambiguous
mark_unreturned-Becomes a u d = mark_each-Becomes (keep (is_unreturned a) u.calls) u (
    (All-keep (IsOpenRow u.calls) (is_unreturned a) u.calls).1
      (unreturned_open a u.calls u.calls (all_find u.calls d)))

abbrev Reconciled : Type 0
Reconciled = CallReconciliationResult × UsageStore

last_store : (x y : Reconciled) → ◌≡◌ {A = Result UsageError Reconciled} (ok x) (ok y) → x.1 ≡ y.1
last_store x y h = ground (arith, h)

settled-Becomes :
    (u u' : UsageStore) (s : Settled)
    → Becomes u (store_of s)
    → settled_or_raise s ≡ ok u'
    → Becomes u u'
settled-Becomes u u' (settled_as v) e h = subst (Becomes u) (same_store h) e
settled-Becomes u u' (settlement_refused v) e h = cc

settle_assignment-Becomes :
    (p : Percent) (id : String) (u u' : UsageStore)
    → settle_assignment p id u ≡ ok u'
    → Becomes u u'
settle_assignment-Becomes p id u u' h =
    elim (Option-cases (find_assignment id u.service.assignments)) [
      | inl absent ↦ let g = rw (absent, settle_assignment) at h in cc
      | inr (a, found) ↦
          settled-Becomes u u' (settle_row p a true u) (settle_row-Becomes p a true u)
            (rw (found, settle_assignment) at h)
    ]

module _ (p : Percent) (session_id call_id : String) where
  settle_last-Becomes :
      (id : String) (u : UsageStore) (done : Reconciled)
      → settle_last p session_id call_id id u ≡ ok done
      → Becomes u done.1
  unfolding settle_last
  settle_last-Becomes id u done h =
      let (v, h1, e1) = returns_both _ (settle_assignment p id u) h in
      let (r, h2, _) = returns_both _ (reconciliation_state v session_id call_id) h1 in
      subst (Becomes u) (last_store (r.0, v) done h2) (settle_assignment-Becomes p id u v e1)

  resolve-Becomes :
      (u : UsageStore) (done : Reconciled)
      → resolve p session_id call_id u ≡ ok done
      → Becomes u done.1
  unfolding resolve
  resolve-Becomes u done h =
      let (now, h1, _) = returns_both _ (reconciliation_state u session_id call_id) h in
      elim (Bool-cases (not (now.0.remaining_open_calls == 0))) [
        | inl more ↦ subst (Becomes u) (last_store (now.0, u) done (rw more at h1)) untouched
        | inr none_left ↦ settle_last-Becomes now.0.assignment_id u done (rw none_left at h1)
      ]

  pub reconcile-Becomes :
      (u : UsageStore) (done : Reconciled)
      → reconcile_ambiguous_call p session_id call_id u ≡ ok done
      → Becomes u done.1
  unfolding reconcile_ambiguous_call
  reconcile-Becomes u done h =
      let (seen, h1, _) = returns_both _ (reconciliation_state u session_id call_id) h in
      elim (Bool-cases seen.0.settled) [
        | inl before ↦ elim (Bool-cases seen.1) [
          | inl reconciled ↦
              subst (Becomes u) (last_store (seen.0, u) done (rw (before, reconciled) at h1))
                untouched
          | inr other ↦ let g = rw (before, other) at h1 in cc
        ]
        | inr open_still ↦ Effects-trans (estimated untouched call_id) (
            resolve-Becomes (record u { failures = set_estimated call_id u.failures }) done
              (rw open_still at h1))
      ]
