-- ===== src/Routing/Selector/BestLead.antt =====
-- The model that `select_lead_model` chooses is preferred to all others.
use skail.Prelude.{
  ◌≡◌, ◌↔◌, true, refl, false, Option, some, List, arith, keep, ok, inl, inr, Option-cases,
}
use skail.Prelude.Int.{ℤ}
use skail.Prelude.Order.{tuple_lt}
use skail.Routing.Selector.Requirements.{RoutingMode, is_manual, Key, RoutingRequirements}
use skail.Routing.Selector.Exclusion.{RouteCandidate, capability_fit}
use skail.Routing.Selector.Choice.{RouteSelection, Route, stable_key, no_rank, the_rank}
use skail.Routing.Selector.Leads.{lead_rank, effective, select_lead_model}
use skail.Routing.Selector.Selections.{qualifies, select_lead_model-IsLeast}
use skail.Routing.Selector.Ranked.{select_lead_model-ranked}
use skail.Routing.Selector.Qualified.{IsQualified, qualifies_iff}
use skail.Routing.Selector.Preferences.{
  Scored, IsNoLater, Stronger, LeadPrecedes, IsBest, stronger_key, strength_key, compared,
  all_precede, All-keep-mem,
}

abbrev lead_key : (c : RouteCandidate) → Scored c → List (List ℤ)
lead_key c a = strength_key a.scores (stable_key c)

lead_key_known :
    (mode : RoutingMode) (c : RouteCandidate) (a : Scored c)
    → is_manual mode ≡ false
    → lead_rank mode c ≡ some (lead_key c a)
unfolding lead_rank capability_fit
lead_key_known mode c a routed = rw (routed, a.known) refl

lead-Scored :
    (mode : RoutingMode) (c : RouteCandidate)
    → is_manual mode ≡ false
    → no_rank (lead_rank mode c) ≡ false
    → Scored c
unfolding lead_rank capability_fit
lead-Scored mode c routed h = elim (Option-cases c.profile.capability) [
  | inl e ↦ ground (arith, routed, h, e)
  | inr (v, known) ↦ record { scores = v; known = known }
]

-- Between two candidates of a routed mode.
lead_between :
    (mode : RoutingMode) (best c : RouteCandidate)
    → is_manual mode ≡ false
    → no_rank (lead_rank mode best) ≡ false
    → no_rank (lead_rank mode c) ≡ false
    → tuple_lt (the_rank (lead_rank mode c)) (the_rank (lead_rank mode best)) ≡ false
    → (a : Scored best) × (b : Scored c) × Stronger a.scores b.scores (IsNoLater best c)
lead_between mode best c routed k l h =
    let a = lead-Scored mode best routed k in
    let b = lead-Scored mode c routed l in
    (
      a,
      b,
      stronger_key a.scores b.scores (stable_key best) (stable_key c) (
          compared (lead_rank mode) best c _ _ (lead_key_known mode best a routed)
            (lead_key_known mode c b routed) h),
    )

lead_by_name :
    (best c : RouteCandidate)
    → tuple_lt
        (the_rank (lead_rank RoutingMode.manual c))
        (the_rank (lead_rank RoutingMode.manual best))
      ≡ false
    → IsNoLater best c
unfolding lead_rank
lead_by_name best c h = h

lead_precedes :
    (mode : RoutingMode) (best c : RouteCandidate)
    → no_rank (lead_rank mode best) ≡ false
    → no_rank (lead_rank mode c) ≡ false
    → tuple_lt (the_rank (lead_rank mode c)) (the_rank (lead_rank mode best)) ≡ false
    → LeadPrecedes mode best c
lead_precedes RoutingMode.manual best c k l h = lead_by_name best c h
lead_precedes RoutingMode.auto best c k l h = lead_between RoutingMode.auto best c refl k l h
lead_precedes RoutingMode.economy best c k l h = lead_between RoutingMode.economy best c refl k l h
lead_precedes RoutingMode.quality best c k l h = lead_between RoutingMode.quality best c refl k l h

-- A lead that is selected is one of the candidates and qualifies, by requirements that a pinned model
-- turns into those of the manual mode without a floor; and no candidate that qualifies is stronger, by
-- the weaker of coding and reasoning, or as strong and more reliable, or alike in both and earlier by
-- provider and model, which alone decide in the manual mode. A candidate qualifies exactly when it is
-- pinned in the manual mode, not excluded, configured, healthy, enabled and eligible, supports what is
-- required, has the sizes and modalities that are required, surpasses the failed attempt in an
-- escalation, reaches the floor, and has a price within the budget. The count is that of the qualified
-- candidates.
pub select_lead_model-IsBest :
    (cs : List RouteCandidate) (r : RoutingRequirements) (budget : Option ℤ)
    (manual_model : Option Key) (s : RouteSelection)
    → select_lead_model cs r budget manual_model ≡ ok (Route.selected s)
    → IsBest
        (qualifies (effective r manual_model) budget manual_model)
        (LeadPrecedes (effective r manual_model).mode)
        cs
        s.candidate
        s.included_count
      × ((c : RouteCandidate)
          → (qualifies (effective r manual_model) budget manual_model c ≡ true)
            ↔ IsQualified (effective r manual_model) budget manual_model c)
select_lead_model-IsBest cs r budget m s h =
    let mode = (effective r m).mode in
    let p = qualifies (effective r m) budget m in
    let least = select_lead_model-IsLeast cs r budget m s h in
    let ranked = select_lead_model-ranked cs r budget m s h in
    let here =
      All-keep-mem p (λ c. no_rank (lead_rank mode c)) cs s.candidate least.candidate
        least.qualified ranked in
    (
      record {
        candidate = least.candidate;
        qualified = least.qualified;
        counted = least.counted;
        preferred =
            all_precede (lead_rank mode) (LeadPrecedes mode) s.candidate (keep p cs)
              (λ c k l. lead_precedes mode s.candidate c here k l) ranked least.least_rank;
      },
      qualifies_iff (effective r m) budget m,
    )
