-- ===== src/Routing/Selector/Ranked.antt =====
-- Each qualified candidate has a rank, when a model has been chosen.
use skail.Prelude.{
  ◌≡◌, subst, inl, inr, Bool, false, ◌&&◌, Option, List, [], ◌∷◌, arith, keep, any, All, Bool-cases,
  ok, Result-cases, All-keep,
}
use skail.Prelude.Int.{ℤ}
use skail.Prelude.Order.{sorted, by_key, tuple_lt, All-sorted}
use skail.Routing.Selector.Requirements.{RoutingMode, is_manual, Key, RoutingRequirements}
use skail.Routing.Selector.Exclusion.{RouteCandidate}
use skail.Routing.Selector.Choice.{
  RouteSelection, Route, stable_key, Tally, empty_tally, tally, no_rank, choose, rank,
  conclude_selection, select_model, is_unpinned,
}
use skail.Routing.Selector.Leads.{lead_rank, conclude_lead, effective, select_lead_model}
use skail.Routing.Selector.Selections.{qualifies, tally_included}

choose-ranked :
    (rank_by : RouteCandidate → Option (List (List ℤ))) (x : RouteCandidate)
    (xs : List RouteCandidate) (c : RouteCandidate)
    → choose rank_by x xs ≡ ok c
    → any (λ c. no_rank (rank_by c)) (x ∷ xs) ≡ false
unfolding choose
choose-ranked rank_by x xs c h = ground (arith, h)

none_All : {A : Type 0} (p : A → Bool) (xs : List A) → any p xs ≡ false → All (λ x. p x ≡ false) xs
none_All p [] h = tt
none_All p (x ∷ xs) h = (ground (arith, h), none_All p xs (ground (arith, h)))

unsorted :
    (p q : RouteCandidate → Bool) (cs inc : List RouteCandidate)
    → inc ≡ keep p (sorted (by_key tuple_lt stable_key) cs)
    → any q inc ≡ false
    → All (λ c. q c ≡ false) (keep p cs)
unsorted p q cs inc e h =
    let by_stable = by_key tuple_lt stable_key in
    (All-keep _ p cs).1 (
      All-sorted by_stable _ cs (
        (All-keep _ p (sorted by_stable cs)).0
          (subst (All (λ c. q c ≡ false)) e (none_All q inc h))))

concluded_ranked :
    (mode : RoutingMode) (t : Tally) (x : RouteCandidate) (xs : List RouteCandidate)
    (s : RouteSelection)
    → conclude_selection mode t (x ∷ xs) ≡ ok (Route.selected s)
    → any (λ c. no_rank (rank mode c)) (x ∷ xs) ≡ false
concluded_ranked mode t x xs s h = elim (Result-cases (choose (rank mode) x xs)) [
  | inl e ↦ choose-ranked (rank mode) x xs e.0 e.1
  | inr e ↦ let g = rw e.1 at h in cc
]

lead_ranked :
    (cs : List RouteCandidate) (r : RoutingRequirements) (t : Tally) (x : RouteCandidate)
    (xs : List RouteCandidate) (s : RouteSelection)
    → conclude_lead cs r t (x ∷ xs) ≡ ok (Route.selected s)
    → any (λ c. no_rank (lead_rank r.mode c)) (x ∷ xs) ≡ false
lead_ranked cs r t x xs s h = elim (Result-cases (choose (lead_rank r.mode) x xs)) [
  | inl e ↦ choose-ranked (lead_rank r.mode) x xs e.0 e.1
  | inr e ↦ let g = rw e.1 at h in cc
]

conclude-ranked :
    (mode : RoutingMode) (t : Tally) (p : RouteCandidate → Bool) (cs inc : List RouteCandidate)
    (s : RouteSelection)
    → inc ≡ keep p (sorted (by_key tuple_lt stable_key) cs)
    → conclude_selection mode t inc ≡ ok (Route.selected s)
    → All (λ c. no_rank (rank mode c) ≡ false) (keep p cs)
conclude-ranked mode t p cs [] s e h = cc
conclude-ranked mode t p cs (x ∷ xs) s e h =
    unsorted p (λ c. no_rank (rank mode c)) cs (x ∷ xs) e (concluded_ranked mode t x xs s h)

conclude_lead-ranked :
    (r : RoutingRequirements) (t : Tally) (p : RouteCandidate → Bool) (cs inc : List RouteCandidate)
    (s : RouteSelection)
    → inc ≡ keep p (sorted (by_key tuple_lt stable_key) cs)
    → conclude_lead cs r t inc ≡ ok (Route.selected s)
    → All (λ c. no_rank (lead_rank r.mode c) ≡ false) (keep p cs)
conclude_lead-ranked r t p cs [] s e h = cc
conclude_lead-ranked r t p cs (x ∷ xs) s e h =
    unsorted p (λ c. no_rank (lead_rank r.mode c)) cs (x ∷ xs) e (lead_ranked cs r t x xs s h)

pub select_model-ranked :
    (cs : List RouteCandidate) (r : RoutingRequirements) (budget : Option ℤ)
    (manual_model : Option Key) (s : RouteSelection)
    → select_model cs r budget manual_model ≡ ok (Route.selected s)
    → All (λ c. no_rank (rank r.mode c) ≡ false) (keep (qualifies r budget manual_model) cs)
unfolding select_model
select_model-ranked cs r budget m s h =
    let t = tally r budget m (sorted (by_key tuple_lt stable_key) cs) empty_tally in
    elim (Bool-cases (is_manual r.mode && is_unpinned m)) [
      | inl e ↦ let g = rw e at h in cc
      | inr e ↦
          conclude-ranked r.mode t (qualifies r budget m) cs t.included s
            (tally_included r budget m (sorted (by_key tuple_lt stable_key) cs) empty_tally)
            (rw e at h)
    ]

pub select_lead_model-ranked :
    (cs : List RouteCandidate) (r : RoutingRequirements) (budget : Option ℤ)
    (manual_model : Option Key) (s : RouteSelection)
    → select_lead_model cs r budget manual_model ≡ ok (Route.selected s)
    → All
        (λ c. no_rank (lead_rank (effective r manual_model).mode c) ≡ false)
        (keep (qualifies (effective r manual_model) budget manual_model) cs)
unfolding select_lead_model
select_lead_model-ranked cs r budget m s h =
    let t = tally (effective r m) budget m (sorted (by_key tuple_lt stable_key) cs) empty_tally in
    conclude_lead-ranked (effective r m) t (qualifies (effective r m) budget m) cs t.included s
      (tally_included (effective r m) budget m (sorted (by_key tuple_lt stable_key) cs) empty_tally)
      h
