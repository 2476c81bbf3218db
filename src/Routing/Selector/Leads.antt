-- ===== src/Routing/Selector/Leads.antt =====
-- src/skail/routing/selector.py: `select_lead_model`.
use skail.Prelude.{
  ℕ, String, Option, none, some, List, [], ◌∷◌, map, str_append, if◌then◌else◌, length, Result, ok,
  err,
}
use skail.Prelude.Int.{ℤ}
use skail.Prelude.Order.{sorted, by_key, tuple_lt}
use skail.Routing.Selector.Requirements.{RoutingMode, is_manual, Key, RoutingRequirements}
use skail.Routing.Selector.Exclusion.{CapabilityVector, RouteCandidate, capability_fit}
use skail.Routing.Selector.Choice.{
  Route, SelectorError, stable_key, down, Tally, empty_tally, tally, most_common, sorted_counts,
  choose,
}

abbrev lead_rank_of : RouteCandidate → Option CapabilityVector → Option ℕ → Option (List (List ℤ))
lead_rank_of c (some v) (some fit) = some (down fit ∷ down v.tool_reliability ∷ stable_key c)
lead_rank_of c _ _ = none

unfoldable pub lead_rank : RoutingMode → RouteCandidate → Option (List (List ℤ))
lead_rank mode c =
    if is_manual mode
    then some (stable_key c)
    else lead_rank_of c c.profile.capability (capability_fit c.profile)

abbrev or_zero : Option ℕ → ℕ
or_zero none = 0
or_zero (some n) = n

-- `f"{provider}:{model}"` of the three strongest candidates
abbrev name_of : RouteCandidate → String
name_of c = str_append (str_append c.profile.provider ":") c.profile.model

abbrev first_three : List RouteCandidate → List RouteCandidate
first_three (a ∷ b ∷ c ∷ cs) = a ∷ b ∷ c ∷ []
first_three cs = cs

unfoldable pub best_candidates : List RouteCandidate → List String
best_candidates cs = map name_of (
    first_three
      (sorted (by_key tuple_lt (λ c. down (or_zero (capability_fit c.profile)) ∷ stable_key c)) cs))

abbrev finish_lead : Tally → ℕ → Result SelectorError RouteCandidate → Result SelectorError Route
finish_lead t n (err e) = err e
finish_lead t n (ok c) = ok (
    Route.selected (record {
      candidate = c;
      fit = capability_fit c.profile;
      included_count = n;
      excluded_counts = sorted_counts t.excluded;
      binding_constraint = none;
      ranking_reasons = "capability_fit,tool_reliability,stable_key" ∷ [];
    }))

abbrev pub conclude_lead :
    List RouteCandidate
    → RoutingRequirements
    → Tally
    → List RouteCandidate
    → Result SelectorError Route
conclude_lead candidates r t [] = ok (
    Route.no_qualified_model (record {
      excluded_counts = sorted_counts t.excluded;
      binding_constraint = most_common t.excluded;
      required_capability_floor = r.capability_floor;
      best_candidates = best_candidates candidates;
    }))
conclude_lead candidates r t (x ∷ xs) =
    finish_lead t (length (x ∷ xs)) (choose (lead_rank r.mode) x xs)

abbrev pub effective : RoutingRequirements → Option Key → RoutingRequirements
effective r none = r
effective r (some k) = record r { mode = RoutingMode.manual; capability_floor = none }

-- the loop of the source keeps no available_excluded and manual_model_reason, which are not read
unfoldable pub select_lead_model :
    List RouteCandidate → RoutingRequirements → Option ℤ → Option Key → Result SelectorError Route
select_lead_model candidates r budget manual_model =
    let e = effective r manual_model in
    let t =
      tally e budget manual_model (sorted (by_key tuple_lt stable_key) candidates) empty_tally in
    conclude_lead candidates e t t.included
