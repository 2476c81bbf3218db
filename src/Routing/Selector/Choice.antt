-- ===== src/Routing/Selector/Choice.antt =====
-- src/skail/routing/selector.py: `select_model`, and what `select_lead_model` shares with it. An
-- exception of the source
-- is an error value; a failed `assert` is one of them.
use skail.Prelude.{
  ℕ, String, Bool, true, false, ◌&&◌, not, Option, none, some, List, [], ◌∷◌, ◌++◌, if◌then◌else◌,
  any, length, Result, ok, err,
}
use skail.Prelude.Int.{ℤ, pos, ◌-ℤ◌, ltb_ℤ}
use skail.Prelude.Dict.{Dict, bump}
use skail.Prelude.Order.{sorted, least, by_key, lex, codes, tuple_lt}
use skail.Routing.Selector.Requirements.{RoutingMode, is_manual, Key, key_eq, RoutingRequirements}
use skail.Routing.Selector.Exclusion.{
  CapabilityVector, RouteCandidate, key_of, capability_fit, exclusion_reason,
}

pub record RouteSelection : Type 0 where
  pub candidate : RouteCandidate
  pub fit : Option ℕ
  pub included_count : ℕ
  pub excluded_counts : Dict ℕ
  pub binding_constraint : Option String
  pub ranking_reasons : List String

pub record RouteFailure : Type 0 where
  pub excluded_counts : Dict ℕ
  pub binding_constraint : Option String
  pub required_capability_floor : Option ℕ
  pub best_candidates : List String

pub data Route : Type 0 where
  selected : RouteSelection → Route
  no_qualified_model : RouteFailure → Route

pub data SelectorError : Type 0 where
  manual_pin_required assertion_failed : SelectorError

-- (provider, model)
abbrev pub stable_key : RouteCandidate → List (List ℤ)
stable_key c = codes c.profile.provider ∷ codes c.profile.model ∷ []

abbrev pub up : ℕ → List ℤ
up n = pos n ∷ []

abbrev pub down : ℕ → List ℤ
down n = (pos 0 -ℤ pos n) ∷ []

pub record Tally : Type 0 where
  pub included : List RouteCandidate
  pub excluded : Dict ℕ
  pub available_excluded : Dict ℕ
  pub manual_model_reason : Option String

abbrev pub empty_tally : Tally
empty_tally = record {
  included = [];
  excluded = [];
  available_excluded = [];
  manual_model_reason = none;
}

abbrev is_key : Option Key → Key → Bool
is_key none key = false
is_key (some k) key = key_eq k key

abbrev is_available : RoutingRequirements → RouteCandidate → Bool
is_available r c =
    not (any (key_eq (key_of c)) r.excluded_models) && c.configured && c.healthy && c.enabled

-- The body of the loop over the candidates, after the exclusion reason is known.
unfoldable pub note_candidate :
    RoutingRequirements → Option Key → Option String → RouteCandidate → Tally → Tally
note_candidate r manual_model reason c t =
    let pinned = if is_key manual_model (key_of c) then reason else t.manual_model_reason in
    elim reason [
      | none ↦ record t { included = t.included ++ c ∷ []; manual_model_reason = pinned }
      | some why ↦ record t {
        excluded = bump t.excluded why;
        available_excluded =
            if is_available r c then bump t.available_excluded why else t.available_excluded;
        manual_model_reason = pinned;
      }
    ]

unfoldable pub tally :
    RoutingRequirements → Option ℤ → Option Key → List RouteCandidate → Tally → Tally
tally r budget manual_model [] t = t
tally r budget manual_model (c ∷ cs) t =
    tally r budget manual_model cs
      (note_candidate r manual_model (exclusion_reason c r budget manual_model) c t)

-- `min(relevant, key=lambda reason: (-relevant[reason], reason))`
unfoldable pub most_common : Dict ℕ → Option String
most_common [] = none
most_common (x ∷ xs) = some (least (by_key tuple_lt (λ x. down x.1 ∷ codes x.0 ∷ [])) x xs).0

abbrev or_else : Option String → Option String → Option String
or_else none rest = rest
or_else (some s) rest = some s

abbrev non_empty_or : Dict ℕ → Dict ℕ → Dict ℕ
non_empty_or [] d = d
non_empty_or (x ∷ xs) d = x ∷ xs

abbrev pub sorted_counts : Dict ℕ → Dict ℕ
sorted_counts d = sorted (by_key (lex ltb_ℤ) (λ x. codes x.0)) d

-- `min(included, key=rank)`, where `rank` asserts what it reads
abbrev pub no_rank : Option (List (List ℤ)) → Bool
no_rank none = true
no_rank (some k) = false

abbrev pub the_rank : Option (List (List ℤ)) → List (List ℤ)
the_rank none = []
the_rank (some k) = k

unfoldable pub choose :
    (RouteCandidate → Option (List (List ℤ)))
    → RouteCandidate
    → List RouteCandidate
    → Result SelectorError RouteCandidate
choose rank x xs =
    if any (λ c. no_rank (rank c)) (x ∷ xs)
    then err SelectorError.assertion_failed
    else ok (least (by_key tuple_lt (λ c. the_rank (rank c))) x xs)

abbrev is_quality : RoutingMode → Bool
is_quality RoutingMode.quality = true
is_quality _ = false

abbrev rank_of :
    RoutingMode
    → RouteCandidate
    → Option CapabilityVector
    → Option ℕ
    → Option ℕ
    → Option (List (List ℤ))
rank_of mode c (some v) (some fit) (some cost) = some (
    if is_quality mode
    then down fit ∷ down v.tool_reliability ∷ up cost ∷ stable_key c
    else up cost ∷ down fit ∷ down v.tool_reliability ∷ up v.latency ∷ stable_key c)
rank_of mode c _ _ _ = none

unfoldable pub rank : RoutingMode → RouteCandidate → Option (List (List ℤ))
rank mode c =
    if is_manual mode
    then some (stable_key c)
    else rank_of mode c c.profile.capability (capability_fit c.profile) c.estimated_cost_usd

-- `manual_model_reason or (min(relevant, ...) if relevant else None)`
abbrev pub binding_of : Tally → Option String
binding_of t =
    or_else t.manual_model_reason (most_common (non_empty_or t.available_excluded t.excluded))

abbrev pub finish_selection :
    RoutingMode
    → Tally
    → Option String
    → ℕ
    → Result SelectorError RouteCandidate
    → Result SelectorError Route
finish_selection mode t binding n (err e) = err e
finish_selection mode t binding n (ok c) = ok (
    Route.selected (record {
      candidate = c;
      fit = capability_fit c.profile;
      included_count = n;
      excluded_counts = sorted_counts t.excluded;
      binding_constraint = binding;
      ranking_reasons =
          (if is_quality mode
            then "capability_fit,tool_reliability,cost,stable_key"
            else "cost,capability_fit,tool_reliability,latency,stable_key")
          ∷ [];
    }))

abbrev pub conclude_selection :
    RoutingMode → Tally → List RouteCandidate → Result SelectorError Route
conclude_selection mode t [] = ok (
    Route.no_qualified_model (record {
      excluded_counts = sorted_counts t.excluded;
      binding_constraint = binding_of t;
      required_capability_floor = none;
      best_candidates = [];
    }))
conclude_selection mode t (x ∷ xs) =
    finish_selection mode t (binding_of t) (length (x ∷ xs)) (choose (rank mode) x xs)

abbrev pub is_unpinned : Option Key → Bool
is_unpinned none = true
is_unpinned (some k) = false

unfoldable pub select_model :
    List RouteCandidate → RoutingRequirements → Option ℤ → Option Key → Result SelectorError Route
select_model candidates r budget manual_model =
    let t =
      tally r budget manual_model (sorted (by_key tuple_lt stable_key) candidates) empty_tally in
    if is_manual r.mode && is_unpinned manual_model
    then err SelectorError.manual_pin_required
    else conclude_selection r.mode t t.included
