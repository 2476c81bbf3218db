-- ===== src/Routing/Selector/Exclusion.antt =====
-- src/skail/routing/selector.py: `_exclusion_reason`, and the fields of a model's profile
-- (src/skail/providers/models.py) that it and the assignment read. Prices are whole micro-dollars
-- per million tokens.
use skail.Prelude.{
  ℕ, String, Bool, true, false, ◌&&◌, ◌||◌, not, Option, none, some, List, if◌then◌else◌, ltb, leb,
  min, any, all,
}
use skail.Prelude.Int.{ℤ, pos, ltb_ℤ}
use skail.Prelude.Sets.{contains}
use skail.Routing.Selector.Requirements.{is_manual, Key, key_eq, RoutingRequirements}

pub record CapabilityVector : Type 0 where
  pub coding : ℕ
  pub reasoning : ℕ
  pub tool_reliability : ℕ
  pub latency : ℕ

pub record ModelProfile : Type 0 where
  pub provider : String
  pub model : String
  pub context_tokens : Option ℕ
  pub max_output_tokens : Option ℕ
  pub supports_tools : Option Bool
  pub supports_structured_output : Option Bool
  pub input_modalities : List String
  pub capability : Option CapabilityVector
  pub auto_eligible : Bool
  pub input_usd_per_million : Option ℕ
  pub output_usd_per_million : Option ℕ
  pub cached_input_usd_per_million : Option ℕ

pub record RouteCandidate : Type 0 where
  pub profile : ModelProfile
  pub estimated_cost_usd : Option ℕ
  pub configured : Bool
  pub healthy : Bool
  pub enabled : Bool

abbrev pub key_of : RouteCandidate → Key
key_of c = (c.profile.provider, c.profile.model)

unfoldable pub capability_fit : ModelProfile → Option ℕ
capability_fit p = elim p.capability [ none ↦ none | some c ↦ some (min c.coding c.reasoning) ]

-- `key != manual_model`, `support is False`, `support is not True`, and the like
abbrev pub differs : Key → Option Key → Bool
differs key none = true
differs key (some k) = not (key_eq key k)

abbrev pub is_false : Option Bool → Bool
is_false (some false) = true
is_false _ = false

abbrev pub is_true : Option Bool → Bool
is_true (some true) = true
is_true _ = false

abbrev pub is_none : {A : Type 0} → Option A → Bool
is_none none = true
is_none (some n) = false

-- `x is not None and x < n`
abbrev pub is_below : Option ℕ → ℕ → Bool
is_below none n = false
is_below (some x) n = ltb x n

-- `x is None or x <= n`, `x is None or x < n`
abbrev pub is_at_most : Option ℕ → ℕ → Bool
is_at_most none n = true
is_at_most (some x) n = leb x n

abbrev pub lacks : Option ℕ → ℕ → Bool
lacks none n = true
lacks (some x) n = ltb x n

abbrev pub lacks_floor : Option ℕ → Option ℕ → Bool
lacks_floor none fit = false
lacks_floor (some floor) fit = lacks fit floor

abbrev pub exceeds : Option ℕ → Option ℤ → Bool
exceeds (some cost) (some budget) = ltb_ℤ budget (pos cost)
exceeds _ _ = false

abbrev pub not_stronger : Option ℕ → Option ℕ → Option String → Option String
not_stronger none fit rest = some "escalation_baseline_unknown"
not_stronger (some failed) fit rest =
    if is_at_most fit failed then some "escalation_not_stronger" else rest

-- The last tests: the floor, the price and the budget.
unfoldable pub price_reason : RouteCandidate → RoutingRequirements → Option ℤ → Option String
price_reason c r budget =
    if lacks_floor r.capability_floor (capability_fit c.profile)
    then some "capability_floor"
    else if is_none c.estimated_cost_usd && (not (is_manual r.mode) || not (is_none budget))
    then some "price_unavailable"
    else if exceeds c.estimated_cost_usd budget
    then some "budget_unaffordable"
    else none

-- Then whether the model is strong enough for an escalation.
unfoldable pub capability_reason : RouteCandidate → RoutingRequirements → Option ℤ → Option String
capability_reason c r budget =
    let rest = price_reason c r budget in
    if r.escalated
    then not_stronger r.failed_capability_fit (capability_fit c.profile) rest
    else rest

-- What the profile must support.
unfoldable pub support_reason : RouteCandidate → RoutingRequirements → Option ℤ → Option String
support_reason c r budget =
    let p = c.profile in
    let routed = not (is_manual r.mode) in
    if r.tools_required && (is_false p.supports_tools || routed && not (is_true p.supports_tools))
    then some "tools_unsupported"
    else if r.structured_output_required
        && (is_false p.supports_structured_output
            || routed && not (is_true p.supports_structured_output))
    then some "structured_output_unsupported"
    else if is_none p.context_tokens && routed || is_below p.context_tokens r.minimum_context_tokens
    then some "context_too_small"
    else if is_none p.max_output_tokens && routed
        || is_below p.max_output_tokens r.minimum_output_tokens
    then some "output_too_small"
    else if not (all (contains p.input_modalities) r.modalities)
    then some "modality_unsupported"
    else capability_reason c r budget

unfoldable pub exclusion_reason :
    RouteCandidate → RoutingRequirements → Option ℤ → Option Key → Option String
exclusion_reason c r budget manual_model =
    if is_manual r.mode && differs (key_of c) manual_model
    then some "manual_model_mismatch"
    else if any (key_eq (key_of c)) r.excluded_models
    then some "model_excluded"
    else if not c.configured
    then some "provider_unconfigured"
    else if not c.healthy
    then some "provider_unhealthy"
    else if not c.enabled
    then some "model_disabled"
    else if (not (is_manual r.mode) || r.escalated) && not c.profile.auto_eligible
    then some "auto_ineligible"
    else support_reason c r budget
