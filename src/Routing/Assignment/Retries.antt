-- ===== src/Routing/Assignment/Retries.antt =====
-- `assign`: the bounded loop over stale snapshots.
use skail.Prelude.{
  ℕ, zero, suc, ◌+◌, ◌≤◌, ◌<◌, ◌≡◌, refl, arith, subst, Result, ok, err, inl, inr, ◌⊎◌, Bool, true,
  false, sym, ◌==◌, Bool-cases, ◌∙◌,
}
use skail.Routing.Budget.Operations.{Percent}
use skail.Routing.Assignment.Tables.{
  AssignmentRequest, RoutingSnapshot, Store, Outcome, AssignError,
}
use skail.Routing.Assignment.Persisting.{NewIds}
use skail.Routing.Assignment.Service.{assign_once, or_retry, is_stale_error, assign_from, assign}

-- The call has met a stale snapshot.
abbrev was_stale : Result AssignError (Outcome × Store) → Bool
was_stale (ok r) = false
was_stale (err e) = is_stale_error e

or_retry-stale :
    (first again : Result AssignError (Outcome × Store))
    → was_stale first ≡ true
    → or_retry first again ≡ again
or_retry-stale (ok r) again h = cc
or_retry-stale (err e) again h = rw h refl

or_retry-fresh :
    (first again : Result AssignError (Outcome × Store))
    → was_stale first ≡ false
    → or_retry first again ≡ first
or_retry-fresh (ok r) again h = refl
or_retry-fresh (err e) again h = rw h refl

-- The result is that of call n, all calls before it were stale, and it is not, or is the last.
pub record IsFirstFresh (calls : ℕ → Result AssignError (Outcome × Store)) (start last : ℕ)
    (result : Result AssignError (Outcome × Store)) : Type 0 where
  pub n : ℕ
  pub from_start : start ≤ n
  pub to_last : n ≤ last
  pub is_result : result ≡ calls n
  pub stale_before : (k : ℕ) → start ≤ k → k < n → was_stale (calls k) ≡ true
  pub ends : (was_stale (calls n) ≡ false) ⊎ (n ≡ last)

module _ (p : Percent) (ids : ℕ → NewIds) (q : AssignmentRequest) (candidates : ℕ → RoutingSnapshot)
    (st : Store) where
  abbrev call : ℕ → Result AssignError (Outcome × Store)
  call n = assign_once p (ids n) q (candidates n) st

  from_attempt :
      (attempt retries : ℕ)
      → IsFirstFresh call attempt
          (attempt + retries)
          (assign_from p ids q candidates st attempt retries)
  unfolding assign_from
  from_attempt attempt zero = record {
    n = attempt;
    from_start = omega arith;
    to_last = omega arith;
    is_result = refl;
    stale_before = λ k low high. ground (arith, low, high);
    ends = inr (omega arith);
  }
  from_attempt attempt (suc retries) = elim (Bool-cases (was_stale (call attempt))) [
    | inr fresh ↦ record {
      n = attempt;
      from_start = omega arith;
      to_last = omega arith;
      is_result = or_retry-fresh (call attempt) _ fresh;
      stale_before = λ k low high. ground (arith, low, high);
      ends = inl fresh;
    }
    | inl stale ↦
        let rest = from_attempt (attempt + 1) retries in
        record {
          n = rest.n;
          from_start = omega (arith, rest.from_start);
          to_last = omega (arith, rest.to_last);
          is_result = or_retry-stale (call attempt) _ stale ∙ rest.is_result;
          stale_before = λ k low high. elim (Bool-cases (k == attempt)) [
            | inl same ↦ subst (λ j. was_stale (call j) ≡ true) (sym (ground (arith, same))) stale
            | inr later ↦ rest.stale_before k (ground (arith, low, later)) high
          ];
          ends = elim rest.ends [ inl fresh ↦ inl fresh | inr e ↦ inr (omega (arith, e)) ];
        }
  ]

  -- The loop ends after at most `max_snapshot_retries` further calls. It answers with the first call
  -- that met no stale snapshot, whether that returned or raised, or with the last call.
  pub assign-IsFirstFresh :
      (max_snapshot_retries : ℕ)
      → IsFirstFresh call 0 max_snapshot_retries (assign p max_snapshot_retries ids q candidates st)
  assign-IsFirstFresh n =
      subst (λ last. IsFirstFresh call 0 last (assign p n ids q candidates st)) (omega arith)
        (from_attempt 0 n)
