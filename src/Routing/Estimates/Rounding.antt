-- ===== src/Routing/Estimates/Rounding.antt =====
-- How far the rounded estimate is from the priced tokens, and what a cache can save.
use skail.Prelude.{
  ℕ, ◌+◌, ◌*◌, ◌≤◌, ◌<◌, ◌≡◌, refl, some, none, [], zero, suc, ◌-◌, ◌⊎◌, inl, inr, sym, ap, ◌∙◌,
  arith,
}
use skail.Routing.Estimates.{
  or_price, AttemptEstimateInput, priced_tokens, quantize, estimate_attempt_cost,
}

quantize_bounds :
    (x : ℕ) → (x < quantize x * 1000000 + 500001) × (quantize x * 1000000 ≤ x + 500000)
unfolding quantize
quantize_bounds x = omega arith

-- What one call costs by the prices of a million tokens: the tokens outside the cache and the cached
-- ones make up the context and the results of tools.
pub record CallPrice (v : AttemptEstimateInput) (input output : ℕ) : Type 0 where
  pub ordinary : ℕ
  pub cached_price : ℕ
  pub made_up : ordinary + v.cached_input_tokens ≡ v.context_tokens + v.tool_result_tokens
  pub is_price :
      (v.cached_input_usd_per_million ≡ some cached_price)
      ⊎ ((v.cached_input_usd_per_million ≡ none) × (cached_price ≡ input))

-- All expected calls, one after another.
abbrev pub repeated : ℕ → ℕ → ℕ
repeated zero price = 0
repeated (suc calls) price = price + repeated calls price

abbrev pub charged : (v : AttemptEstimateInput) (input output : ℕ) → CallPrice v input output → ℕ
charged v input output c =
    repeated v.expected_calls
      (c.ordinary * input + v.cached_input_tokens * c.cached_price + v.output_tokens * output)

repeated_mul : (n price : ℕ) → repeated n price ≡ price * n
repeated_mul zero price = omega arith
repeated_mul (suc n) price = omega (arith, repeated_mul n price)

charged_tokens :
    (v : AttemptEstimateInput) (input output : ℕ) (c : CallPrice v input output)
    → charged v input output c ≡ priced_tokens v input output
unfolding priced_tokens
charged_tokens v input output c =
    repeated_mul v.expected_calls _
    ∙ ap
        (λ n.
          (n * input + v.cached_input_tokens * c.cached_price + v.output_tokens * output)
          * v.expected_calls)
        (omega (arith, c.made_up))
    ∙ ap
        (λ n.
          ((v.context_tokens + v.tool_result_tokens - v.cached_input_tokens) * input
            + v.cached_input_tokens * n
            + v.output_tokens * output)
          * v.expected_calls)
        (price c.is_price)
  where
    price :
        (v.cached_input_usd_per_million ≡ some c.cached_price)
          ⊎ ((v.cached_input_usd_per_million ≡ none) × (c.cached_price ≡ input))
        → c.cached_price ≡ or_price v.cached_input_usd_per_million input
    price (inl e) = sym (ap (λ o. or_price o input) e)
    price (inr e) = e.1 ∙ sym (ap (λ o. or_price o input) e.0)

-- An attempt whose prices for input and output are known has an estimate that misses no price. It is
-- within half a micro-dollar of the sum over the expected calls, each of which pays for the tokens
-- outside the cache, for the cached ones at their own price if they have one, and for the output.
pub cost_within_half :
    (v : AttemptEstimateInput) (input output : ℕ) (c : CallPrice v input output)
    → v.input_usd_per_million ≡ some input
    → v.output_usd_per_million ≡ some output
    → (cost : ℕ) × ((estimate_attempt_cost v).cost_usd ≡ some cost)
      × ((estimate_attempt_cost v).missing_price_fields ≡ [])
      × (charged v input output c ≤ cost * 1000000 + 500000)
      × (cost * 1000000 ≤ charged v input output c + 500000)
unfolding estimate_attempt_cost
cost_within_half v input output c p q =
    let b = quantize_bounds (priced_tokens v input output) in
    let e = charged_tokens v input output c in
    (
      quantize (priced_tokens v input output),
      rw (p, q) refl,
      rw (p, q) refl,
      omega (arith, b, e),
      omega (arith, b, e),
    )
