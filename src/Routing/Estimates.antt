-- ===== src/Routing/Estimates.antt =====
-- src/skail/routing/estimates.py: the estimated cost of an attempt. Prices are whole micro-dollars
-- per million tokens and costs micro-dollars, the quantum of the source; its decimals have 28
-- digits, and the sums here are taken not to leave them.
pub mod Rounding
use skail.Prelude.{
  ℕ, ◌+◌, ◌-◌, ◌*◌, ◌/◌, Bool, true, false, Option, none, some, List, [], ◌∷◌, ◌++◌, if◌then◌else◌,
  ltb, Result, ok, err,
}

pub record AttemptEstimateInput : Type 0 where
  pub context_tokens : ℕ
  pub tool_result_tokens : ℕ
  pub cached_input_tokens : ℕ
  pub output_tokens : ℕ
  pub expected_calls : ℕ
  pub input_usd_per_million : Option ℕ
  pub output_usd_per_million : Option ℕ
  pub cached_input_usd_per_million : Option ℕ

pub data EstimateError : Type 0 where
  expected_calls_invalid cached_tokens_exceed_context : EstimateError

-- The constraints of the fields and `cached_tokens_fit_context`.
unfoldable validated : AttemptEstimateInput → Result EstimateError AttemptEstimateInput
validated v =
    if ltb v.expected_calls 1
    then err EstimateError.expected_calls_invalid
    else if ltb v.context_tokens v.cached_input_tokens
    then err EstimateError.cached_tokens_exceed_context
    else ok v

pub data PriceField : Type 0 where
  input_usd_per_million output_usd_per_million : PriceField

pub record AttemptCostEstimate : Type 0 where
  pub estimated_input_tokens : ℕ
  pub estimated_output_tokens : ℕ
  pub expected_calls : ℕ
  pub cost_usd : Option ℕ
  pub missing_price_fields : List PriceField

abbrev missing_if : Option ℕ → PriceField → List PriceField
missing_if none name = name ∷ []
missing_if (some price) name = []

abbrev pub or_price : Option ℕ → ℕ → ℕ
or_price none price = price
or_price (some cached) price = cached

-- What the calls cost before the division by a million.
unfoldable pub priced_tokens : AttemptEstimateInput → ℕ → ℕ → ℕ
priced_tokens v input output =
    ((v.context_tokens + v.tool_result_tokens - v.cached_input_tokens) * input
      + v.cached_input_tokens * or_price v.cached_input_usd_per_million input
      + v.output_tokens * output)
    * v.expected_calls

-- `(x / _MILLION).quantize(_USD_QUANTUM, rounding=ROUND_HALF_UP)`
unfoldable pub quantize : ℕ → ℕ
quantize x = (x + 500000) / 1000000

abbrev cost_of : AttemptEstimateInput → Option ℕ → Option ℕ → Option ℕ
cost_of v (some input) (some output) = some (quantize (priced_tokens v input output))
cost_of v _ _ = none

unfoldable pub estimate_attempt_cost : AttemptEstimateInput → AttemptCostEstimate
unfolding quantize priced_tokens
estimate_attempt_cost v = record {
  estimated_input_tokens = v.context_tokens + v.tool_result_tokens;
  estimated_output_tokens = v.output_tokens;
  expected_calls = v.expected_calls;
  cost_usd = cost_of v v.input_usd_per_million v.output_usd_per_million;
  missing_price_fields =
      missing_if v.input_usd_per_million PriceField.input_usd_per_million
      ++ missing_if v.output_usd_per_million PriceField.output_usd_per_million;
}
