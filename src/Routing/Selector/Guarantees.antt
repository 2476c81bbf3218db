-- ===== src/Routing/Selector/Guarantees.antt =====
-- What a selected model is known to satisfy, and that the selection returns.
use skail.Prelude.{
  ℕ, ◌≤◌, ◌≡◌, refl, ◌∙◌, sym, ap, subst, ◌⊎◌, inl, inr, Bool, true, false, ◌&&◌, ◌||◌, not, Option,
  none, some, List, [], ◌∷◌, arith, any, leb, length, keep, Option-cases, Result, ok,
}
use skail.Prelude.Int.{ℤ, pos, ◌≤ℤ◌}
use skail.Prelude.Order.{sorted, least, by_key, tuple_lt, length-keep-sorted}
use skail.Routing.Selector.Requirements.{
  RoutingMode, is_manual, Key, RoutingRequirements, BuildInput, build,
}
use skail.Routing.Selector.Exclusion.{
  CapabilityVector, RouteCandidate, exclusion_reason, support_reason, capability_reason,
  price_reason, capability_fit, is_none, lacks_floor,
}
use skail.Routing.Selector.Choice.{
  RouteSelection, RouteFailure, Route, SelectorError, stable_key, Tally, empty_tally, tally,
  no_rank, the_rank, choose, rank, binding_of, finish_selection, conclude_selection, select_model,
  is_unpinned,
}
use skail.Routing.Selector.Floors.{build_floored}
use skail.Routing.Selector.Selections.{qualifies, tally_included, select_model-IsLeast}

support_passed :
    (c : RouteCandidate) (r : RoutingRequirements) (b : Option ℤ) (m : Option Key)
    → exclusion_reason c r b m ≡ none
    → support_reason c r b ≡ none
unfolding exclusion_reason
support_passed c r b m h = ground (arith, h)

capability_passed :
    (c : RouteCandidate) (r : RoutingRequirements) (b : Option ℤ)
    → support_reason c r b ≡ none
    → capability_reason c r b ≡ none
unfolding support_reason
capability_passed c r b h = ground (arith, h)

price_passed :
    (c : RouteCandidate) (r : RoutingRequirements) (b : Option ℤ)
    → capability_reason c r b ≡ none
    → price_reason c r b ≡ none
unfolding capability_reason
price_passed c r b h = ground (arith, h)

floor_passed :
    (c : RouteCandidate) (r : RoutingRequirements) (b : Option ℤ)
    → price_reason c r b ≡ none
    → (lacks_floor r.capability_floor (capability_fit c.profile) ≡ false)
      × (is_none c.estimated_cost_usd && (not (is_manual r.mode) || not (is_none b)) ≡ false)
unfolding price_reason
floor_passed c r b h = ground (arith, h)

cost_passed :
    (c : RouteCandidate) (r : RoutingRequirements) (b : ℤ)
    → price_reason c r (some b) ≡ none
    → (cost : ℕ) × (c.estimated_cost_usd ≡ some cost) × (pos cost ≤ℤ b)
unfolding price_reason
cost_passed c r b h = elim (Option-cases c.estimated_cost_usd) [
  | inl e ↦ (0, ground (arith, h, e), ground (arith, h, e))
  | inr e ↦ (e.0, e.1, ground (arith, h, e.1))
]

qualifies_passed :
    (c : RouteCandidate) (r : RoutingRequirements) (b : Option ℤ) (m : Option Key)
    → qualifies r b m c ≡ true
    → price_reason c r b ≡ none
qualifies_passed c r b m h =
    price_passed c r b (capability_passed c r b (support_passed c r b m (ground (arith, h))))

floor_met :
    (c : RouteCandidate) (r : RoutingRequirements) (b : Option ℤ) (floor : ℕ)
    → price_reason c r b ≡ none
    → r.capability_floor ≡ some floor
    → (fit : ℕ) × (capability_fit c.profile ≡ some fit) × (floor ≤ fit)
floor_met c r b floor h e =
    let (f, p) = floor_passed c r b h in
    elim (Option-cases (capability_fit c.profile)) [
      | inl u ↦ (0, ground (arith, f, e, u), ground (arith, f, e, u))
      | inr u ↦ (u.0, u.1, ground (arith, f, e, u.1))
    ]

pub selected_cost :
    (cs : List RouteCandidate) (r : RoutingRequirements) (budget : ℤ) (manual_model : Option Key)
    (s : RouteSelection)
    → select_model cs r (some budget) manual_model ≡ ok (Route.selected s)
    → (cost : ℕ) × (s.candidate.estimated_cost_usd ≡ some cost) × (pos cost ≤ℤ budget)
selected_cost cs r budget m s h =
    let best = select_model-IsLeast cs r (some budget) m s h in
    cost_passed s.candidate r budget (qualifies_passed s.candidate r (some budget) m best.qualified)

-- A selected model costs no more than the available budget, and is at least as capable as the
-- floor, where there are a budget and a floor.
pub selected_within :
    (cs : List RouteCandidate) (r : RoutingRequirements) (budget : ℤ) (floor : ℕ)
    (manual_model : Option Key) (s : RouteSelection)
    → select_model cs r (some budget) manual_model ≡ ok (Route.selected s)
    → r.capability_floor ≡ some floor
    → ((cost : ℕ) × (s.candidate.estimated_cost_usd ≡ some cost) × (pos cost ≤ℤ budget))
      × ((fit : ℕ) × (capability_fit s.candidate.profile ≡ some fit) × (floor ≤ fit))
selected_within cs r budget floor m s h e =
    let best = select_model-IsLeast cs r (some budget) m s h in
    let passed = qualifies_passed s.candidate r (some budget) m best.qualified in
    (selected_cost cs r budget m s h, floor_met s.candidate r (some budget) floor passed e)

capability_known :
    (c : RouteCandidate) (fit : ℕ)
    → capability_fit c.profile ≡ some fit
    → (v : CapabilityVector) × (c.profile.capability ≡ some v)
unfolding capability_fit
capability_known c fit h = elim (Option-cases c.profile.capability) [
  | inl e ↦ let g = rw e at h in cc
  | inr e ↦ e
]

-- A qualified candidate has a rank, where the floor is not missing in a routed mode.
has_rank :
    (c : RouteCandidate) (r : RoutingRequirements) (b : Option ℤ) (m : Option Key)
    → qualifies r b m c ≡ true
    → is_manual r.mode || not (is_none r.capability_floor) ≡ true
    → no_rank (rank r.mode c) ≡ false
unfolding rank
has_rank c r b m h k = elim (Option-cases r.capability_floor) [
  | inl e ↦ ground (arith, k, e)
  | inr e ↦
      let passed = qualifies_passed c r b m h in
      let (fit, known, _) = floor_met c r b e.0 passed e.1 in
      let (v, has) = capability_known c fit known in
      ground (arith, (floor_passed c r b passed).1, known, has)
]

any-keep-false :
    (p q : RouteCandidate → Bool) (cs : List RouteCandidate)
    → ((c : RouteCandidate) → q c ≡ true → p c ≡ false)
    → any p (keep q cs) ≡ false
any-keep-false p q [] h = refl
any-keep-false p q (c ∷ cs) h = ground (arith, h c, any-keep-false p q cs h)

any_kept :
    (p : RouteCandidate → Bool) (cs : List RouteCandidate) → any p cs ≡ leb 1 (length (keep p cs))
any_kept p [] = refl
any_kept p (c ∷ cs) = ground (arith, any_kept p cs)

-- How a selection without an exception ends.
abbrev pub Ends : Result SelectorError Route → Bool → Type 0
Ends result some_qualify =
    ((s : RouteSelection) × (result ≡ ok (Route.selected s)) × (some_qualify ≡ true))
    ⊎ ((f : RouteFailure) × (result ≡ ok (Route.no_qualified_model f)) × (some_qualify ≡ false))

chosen :
    (rank_by : RouteCandidate → Option (List (List ℤ))) (x : RouteCandidate)
    (xs : List RouteCandidate)
    → any (λ c. no_rank (rank_by c)) (x ∷ xs) ≡ false
    → choose rank_by x xs ≡ ok (least (by_key tuple_lt (λ c. the_rank (rank_by c))) x xs)
unfolding choose
chosen rank_by x xs h = rw h refl

conclude-Ends :
    (mode : RoutingMode) (t : Tally) (inc : List RouteCandidate)
    → any (λ c. no_rank (rank mode c)) inc ≡ false
    → Ends (conclude_selection mode t inc) (leb 1 (length inc))
conclude-Ends mode t [] h = inr (_, refl, refl)
conclude-Ends mode t (x ∷ xs) h = inl (
  _,
  ap (finish_selection mode t (binding_of t) (length (x ∷ xs))) (chosen (rank mode) x xs h),
  ground arith,
)

-- With the requirements that the builder gives, and a pinned model in the manual mode, the selection
-- raises nothing, the assertions of the ranking included: it selects a model exactly when a candidate
-- qualifies, and otherwise reports that there is none.
pub select_model_returns :
    (i : BuildInput) (r : RoutingRequirements) (cs : List RouteCandidate) (budget : Option ℤ)
    (manual_model : Option Key)
    → build i ≡ ok r
    → is_manual r.mode && is_unpinned manual_model ≡ false
    → Ends (select_model cs r budget manual_model) (any (qualifies r budget manual_model) cs)
unfolding select_model
select_model_returns i r cs b m built pinned =
    let q = qualifies r b m in
    let in_order = sorted (by_key tuple_lt stable_key) cs in
    let t = tally r b m in_order empty_tally in
    let inc = tally_included r b m in_order empty_tally in
    let ranked =
      subst (λ l. any (λ c. no_rank (rank r.mode c)) l ≡ false) (sym inc)
        (any-keep-false _ q in_order (λ c p. has_rank c r b m p (build_floored i r built))) in
    let number =
      ap (λ l. leb 1 (length l)) inc
      ∙ ap (λ n. leb 1 n) (length-keep-sorted (by_key tuple_lt stable_key) q cs)
      ∙ sym (any_kept q cs) in
    rw pinned (
      subst (λ b. Ends (conclude_selection r.mode t t.included) b) number
        (conclude-Ends r.mode t t.included ranked))
