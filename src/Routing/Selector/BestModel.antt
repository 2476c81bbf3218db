-- ===== src/Routing/Selector/BestModel.antt =====
-- The model that `select_model` chooses is preferred to all others.
use skail.Prelude.{
  ◌≡◌, ◌↔◌, true, refl, false, Option, some, List, ◌∷◌, arith, keep, ok, inl, inr, Option-cases,
}
use skail.Prelude.Int.{ℤ}
use skail.Prelude.Order.{tuple_lt}
use skail.Routing.Selector.Requirements.{RoutingMode, is_manual, Key, RoutingRequirements}
use skail.Routing.Selector.Exclusion.{RouteCandidate, capability_fit}
use skail.Routing.Selector.Choice.{
  RouteSelection, Route, stable_key, up, down, no_rank, the_rank, rank, select_model,
}
use skail.Routing.Selector.Selections.{qualifies, select_model-IsLeast}
use skail.Routing.Selector.Ranked.{select_model-ranked}
use skail.Routing.Selector.Qualified.{IsQualified, qualifies_iff}
use skail.Routing.Selector.Preferences.{
  Decides, Scored, strength, Priced, IsNoLater, Stronger, Precedes, IsBest, Decides-map, up_decides,
  stronger_key, Stronger-map, strength_key, compared, all_precede, All-keep-mem,
}

manual_key : (c : RouteCandidate) → rank RoutingMode.manual c ≡ some (stable_key c)
unfolding rank
manual_key c = refl

-- The keys that the selectors compare, for a candidate with known scores.
abbrev cost_key : (c : RouteCandidate) → Scored c → Priced c → List (List ℤ)
cost_key c a m =
    up m.cost
    ∷ down (strength a.scores)
    ∷ down a.scores.tool_reliability
    ∷ up a.scores.latency
    ∷ stable_key c

auto_key :
    (c : RouteCandidate) (a : Scored c) (m : Priced c)
    → rank RoutingMode.auto c ≡ some (cost_key c a m)
unfolding rank capability_fit
auto_key c a m = rw (a.known, m.priced) refl

economy_key :
    (c : RouteCandidate) (a : Scored c) (m : Priced c)
    → rank RoutingMode.economy c ≡ some (cost_key c a m)
unfolding rank capability_fit
economy_key c a m = rw (a.known, m.priced) refl

quality_key :
    (c : RouteCandidate) (a : Scored c) (m : Priced c)
    → rank RoutingMode.quality c ≡ some (strength_key a.scores (up m.cost ∷ stable_key c))
unfolding rank capability_fit
quality_key c a m = rw (a.known, m.priced) refl

scored :
    (mode : RoutingMode) (c : RouteCandidate)
    → is_manual mode ≡ false
    → no_rank (rank mode c) ≡ false
    → Scored c × Priced c
unfolding rank capability_fit
scored mode c routed h = elim (Option-cases c.profile.capability) [
  | inl e ↦ ground (arith, routed, h, e)
  | inr (v, known) ↦ elim (Option-cases c.estimated_cost_usd) [
    | inl e ↦ ground (arith, routed, h, known, e)
    | inr (k, priced) ↦ (record { scores = v; known = known }, record { cost = k; priced = priced })
  ]
]

cost_precedes :
    (best c : RouteCandidate) (a : Scored best) (b : Scored c) (m : Priced best) (n : Priced c)
    → tuple_lt (cost_key c b n) (cost_key best a m) ≡ false
    → Decides m.cost n.cost
        (Stronger a.scores b.scores (Decides a.scores.latency b.scores.latency (IsNoLater best c)))
cost_precedes best c a b m n h =
    Decides-map m.cost n.cost
      (λ k.
        Stronger-map a.scores b.scores
          (up_decides a.scores.latency b.scores.latency (stable_key best) (stable_key c))
          (stronger_key a.scores b.scores _ _ k))
      (up_decides m.cost n.cost _ _ h)

quality_precedes :
    (best c : RouteCandidate) (a : Scored best) (b : Scored c) (m : Priced best) (n : Priced c)
    → tuple_lt
        (strength_key b.scores (up n.cost ∷ stable_key c))
        (strength_key a.scores (up m.cost ∷ stable_key best))
      ≡ false
    → Stronger a.scores b.scores (Decides m.cost n.cost (IsNoLater best c))
quality_precedes best c a b m n h =
    Stronger-map a.scores b.scores (up_decides m.cost n.cost (stable_key best) (stable_key c))
      (stronger_key a.scores b.scores _ _ h)

ranked-Precedes :
    (mode : RoutingMode) (best c : RouteCandidate)
    → no_rank (rank mode best) ≡ false
    → no_rank (rank mode c) ≡ false
    → tuple_lt (the_rank (rank mode c)) (the_rank (rank mode best)) ≡ false
    → Precedes mode best c
ranked-Precedes RoutingMode.manual best c k l h = by_name h
  where
    by_name :
        tuple_lt (the_rank (rank RoutingMode.manual c)) (the_rank (rank RoutingMode.manual best))
          ≡ false
        → IsNoLater best c
    by_name e = compared (rank RoutingMode.manual) best c _ _ (manual_key best) (manual_key c) e
ranked-Precedes RoutingMode.quality best c k l h =
    let (a, m) = scored RoutingMode.quality best refl k in
    let (b, n) = scored RoutingMode.quality c refl l in
    (
      a,
      b,
      m,
      n,
      quality_precedes best c a b m n (
          compared (rank RoutingMode.quality) best c _ _ (quality_key best a m) (quality_key c b n)
            h),
    )
ranked-Precedes RoutingMode.auto best c k l h =
    let (a, m) = scored RoutingMode.auto best refl k in
    let (b, n) = scored RoutingMode.auto c refl l in
    (
      a,
      b,
      m,
      n,
      cost_precedes best c a b m n
          (compared (rank RoutingMode.auto) best c _ _ (auto_key best a m) (auto_key c b n) h),
    )
ranked-Precedes RoutingMode.economy best c k l h =
    let (a, m) = scored RoutingMode.economy best refl k in
    let (b, n) = scored RoutingMode.economy c refl l in
    (
      a,
      b,
      m,
      n,
      cost_precedes best c a b m n (
          compared (rank RoutingMode.economy) best c _ _ (economy_key best a m) (economy_key c b n)
            h),
    )

-- A model that is selected is one of the candidates and qualifies, and no candidate that qualifies is
-- preferred to it. A candidate qualifies exactly when it is pinned in the manual mode, not excluded,
-- configured, healthy, enabled and eligible, supports what is required, has the sizes and modalities
-- that are required, surpasses the failed attempt in an escalation, reaches the floor, and has a price
-- within the budget. In the quality mode the stronger one is preferred, by the weaker of coding and
-- reasoning, then the more reliable, then the cheaper one; in the other routed modes the cheaper one,
-- then the stronger, the more reliable and the faster one; and provider and model decide last. The
-- count is that of the qualified candidates.
pub select_model-IsBest :
    (cs : List RouteCandidate) (r : RoutingRequirements) (budget : Option ℤ)
    (manual_model : Option Key) (s : RouteSelection)
    → select_model cs r budget manual_model ≡ ok (Route.selected s)
    → IsBest (qualifies r budget manual_model) (Precedes r.mode) cs s.candidate s.included_count
      × ((c : RouteCandidate)
          → (qualifies r budget manual_model c ≡ true) ↔ IsQualified r budget manual_model c)
select_model-IsBest cs r budget m s h =
    let p = qualifies r budget m in
    let least = select_model-IsLeast cs r budget m s h in
    let ranked = select_model-ranked cs r budget m s h in
    let here =
      All-keep-mem p (λ c. no_rank (rank r.mode c)) cs s.candidate least.candidate least.qualified
        ranked in
    (
      record {
        candidate = least.candidate;
        qualified = least.qualified;
        counted = least.counted;
        preferred =
            all_precede (rank r.mode) (Precedes r.mode) s.candidate (keep p cs)
              (λ c k l. ranked-Precedes r.mode s.candidate c here k l) ranked least.least_rank;
      },
      qualifies_iff r budget m,
    )
