-- ===== src/Routing/Tests.antt =====
-- The theorems about estimates and the choice of models at single inputs.
use skail.Prelude.{◌↔◌, inr, ℕ, ◌+◌, ◌*◌, ◌≤◌, ◌≡◌, refl, true, false, none, some, [], ◌∷◌, any, ok}
use skail.Prelude.Int.{pos, ◌-ℤ◌, ◌≤ℤ◌}
use skail.Prelude.Dict.{get, put, bump}
use skail.Prelude.Order.{lex, sorted, least}
use skail.Routing.Estimates.{AttemptEstimateInput, estimate_attempt_cost}
use skail.Routing.Estimates.Rounding.{CallPrice, charged, cost_within_half}
use skail.Routing.Selector.Requirements.{
  RoutingMode, TaskRisk, BuildInput, RoutingRequirements, build, requirements, floor_of,
  risk_floors, adjusted, union,
}
use skail.Routing.Selector.Exclusion.{
  RouteCandidate, exclusion_reason, support_reason, capability_reason, price_reason, capability_fit,
}
use skail.Routing.Selector.Choice.{
  Route, RouteSelection, select_model, tally, note_candidate, choose, rank, most_common,
}
use skail.Routing.Selector.Leads.{select_lead_model, lead_rank}
use skail.Routing.Selector.Selections.{qualifies}
use skail.Routing.Selector.Qualified.{IsQualified}
use skail.Routing.Selector.Preferences.{Precedes, LeadPrecedes, IsBest}
use skail.Routing.Selector.BestModel.{select_model-IsBest}
use skail.Routing.Selector.BestLead.{select_lead_model-IsBest}
use skail.Routing.Selector.Guarantees.{Ends, selected_within, select_model_returns}

abbrev attempt : AttemptEstimateInput
attempt = record {
  context_tokens = 1000;
  tool_result_tokens = 200;
  cached_input_tokens = 300;
  output_tokens = 100;
  expected_calls = 2;
  input_usd_per_million = some 3000000;
  output_usd_per_million = some 15000000;
  cached_input_usd_per_million = none;
}

abbrev call_price : CallPrice attempt 3000000 15000000
call_price = record {
  ordinary = 900;
  cached_price = 3000000;
  made_up = refl;
  is_price = inr (refl, refl);
}

cost_within_half_example :
    (cost : ℕ) × ((estimate_attempt_cost attempt).cost_usd ≡ some cost)
    × ((estimate_attempt_cost attempt).missing_price_fields ≡ [])
    × (charged attempt 3000000 15000000 call_price ≤ cost * 1000000 + 500000)
    × (cost * 1000000 ≤ charged attempt 3000000 15000000 call_price + 500000)
cost_within_half_example = cost_within_half attempt 3000000 15000000 call_price refl refl

abbrev wanted : BuildInput
wanted = record {
  role = "tester";
  risk = TaskRisk.bounded;
  mode = RoutingMode.auto;
  role_hard_min = 0;
  required_tools = false;
  required_structured_output = false;
  required_context_tokens = 100;
  required_output_tokens = 10;
  required_modalities = [];
  hinted_floor = none;
  hinted_context_tokens = 0;
  hinted_output_tokens = 0;
  hinted_modalities = [];
  escalated = false;
  failed_capability_fit = none;
  failed_model = none;
  excluded_models = [];
}

abbrev required : RoutingRequirements
required = record {
  capability_floor = some 45;
  tools_required = false;
  structured_output_required = false;
  minimum_context_tokens = 100;
  minimum_output_tokens = 10;
  modalities = [];
  role = "tester";
  risk = TaskRisk.bounded;
  mode = RoutingMode.auto;
  role_hard_min = 0;
  escalated = false;
  failed_capability_fit = none;
  excluded_models = [];
}

built : build wanted ≡ ok required
unfolding build requirements floor_of risk_floors adjusted union sorted get
built = refl

abbrev cheap : RouteCandidate
cheap = record {
  profile = record {
    provider = "a";
    model = "m";
    context_tokens = some 1000;
    max_output_tokens = some 100;
    supports_tools = none;
    supports_structured_output = none;
    input_modalities = [];
    capability = some (record { coding = 60; reasoning = 50; tool_reliability = 70; latency = 20 });
    auto_eligible = true;
    input_usd_per_million = some 3;
    output_usd_per_million = some 15;
    cached_input_usd_per_million = none;
  };
  estimated_cost_usd = some 40;
  configured = true;
  healthy = true;
  enabled = true;
}

abbrev off : RouteCandidate
off = record cheap { enabled = false; estimated_cost_usd = some 10 }

abbrev chosen : RouteSelection
chosen = record {
  candidate = cheap;
  fit = some 50;
  included_count = 1;
  excluded_counts = ("model_disabled", 1) ∷ [];
  binding_constraint = some "model_disabled";
  ranking_reasons = "cost,capability_fit,tool_reliability,latency,stable_key" ∷ [];
}

chosen_ok :
    select_model (off ∷ cheap ∷ []) required (some (pos 50)) none ≡ ok (Route.selected chosen)
unfolding select_model tally note_candidate exclusion_reason support_reason capability_reason
    price_reason capability_fit choose rank most_common lex sorted least put get bump ◌-ℤ◌
chosen_ok = refl

abbrev lead_chosen : RouteSelection
lead_chosen = record chosen {
  binding_constraint = none;
  ranking_reasons = "capability_fit,tool_reliability,stable_key" ∷ [];
}

lead_ok :
    select_lead_model (off ∷ cheap ∷ []) required (some (pos 50)) none
    ≡ ok (Route.selected lead_chosen)
unfolding select_lead_model tally note_candidate exclusion_reason support_reason capability_reason
    price_reason capability_fit choose lead_rank most_common lex sorted least put get bump ◌-ℤ◌
lead_ok = refl

select_model-IsBest_example :
    IsBest
      (qualifies required (some (pos 50)) none)
      (Precedes RoutingMode.auto)
      (off ∷ cheap ∷ [])
      cheap
      1
    × ((c : RouteCandidate)
        → (qualifies required (some (pos 50)) none c ≡ true)
          ↔ IsQualified required (some (pos 50)) none c)
select_model-IsBest_example =
    select_model-IsBest (off ∷ cheap ∷ []) required (some (pos 50)) none chosen chosen_ok

select_lead_model-IsBest_example :
    IsBest
      (qualifies required (some (pos 50)) none)
      (LeadPrecedes RoutingMode.auto)
      (off ∷ cheap ∷ [])
      cheap
      1
    × ((c : RouteCandidate)
        → (qualifies required (some (pos 50)) none c ≡ true)
          ↔ IsQualified required (some (pos 50)) none c)
select_lead_model-IsBest_example =
    select_lead_model-IsBest (off ∷ cheap ∷ []) required (some (pos 50)) none lead_chosen lead_ok

selected_within_example :
    ((cost : ℕ) × (some 40 ≡ some cost) × (pos cost ≤ℤ pos 50))
    × ((fit : ℕ) × (capability_fit cheap.profile ≡ some fit) × (45 ≤ fit))
selected_within_example =
    selected_within (off ∷ cheap ∷ []) required (pos 50) 45 none chosen chosen_ok refl

select_model_returns_example :
    Ends
      (select_model (off ∷ []) required (some (pos 50)) none)
      (any (qualifies required (some (pos 50)) none) (off ∷ []))
select_model_returns_example =
    select_model_returns wanted required (off ∷ []) (some (pos 50)) none built refl
