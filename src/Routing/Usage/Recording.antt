-- ===== src/Routing/Usage/Recording.antt =====
-- The usage that a response reports: `_normalize_response`, `_token_cost_usd` and `record_call`.
use skail.Prelude.{
  ℕ, ◌+◌, ◌-◌, ◌*◌, String, Bool, true, false, ◌&&◌, ◌||◌, not, Option, none, some, List, [], ◌∷◌,
  ◌++◌, str_eq, ◌==◌, if◌then◌else◌, Result, ok, err,
}
use skail.Routing.Assignment.Tables.{PricingEvidence}
use skail.Routing.Assignment.Lookups.{find_assignment}
use skail.Routing.Usage.Tables.{
  completed, ambiguous, rejected, call_eq, ProviderCall, CallUsage, UsageStore, UsageError,
  unknown_row, late_usage, usage_conflict, find_call, set_call,
}

pub record Tokens : Type 0 where
  pub input_tokens : ℕ
  pub output_tokens : ℕ
  pub cached_input_tokens : ℕ

abbrev no_tokens : Tokens
no_tokens = record { input_tokens = 0; output_tokens = 0; cached_input_tokens = 0 }

abbrev add_tokens : Tokens → Option Tokens → Option Tokens
add_tokens a none = none
add_tokens a (some b) = some (record {
  input_tokens = a.input_tokens + b.input_tokens;
  output_tokens = a.output_tokens + b.output_tokens;
  cached_input_tokens = a.cached_input_tokens + b.cached_input_tokens;
})

-- the sum, unless the usage of a message is missing
unfoldable pub sum_tokens : List (Option Tokens) → Option Tokens
sum_tokens [] = some no_tokens
sum_tokens (none ∷ values) = none
sum_tokens (some t ∷ values) = add_tokens t (sum_tokens values)

-- `_normalize_response`: the adapter's readings of the messages
unfoldable pub normalize_response : List (Option Tokens) → Option Tokens
normalize_response [] = none
normalize_response (v ∷ values) = sum_tokens (v ∷ values)

abbrev or_price : Option ℕ → ℕ → ℕ
or_price none p = p
or_price (some c) p = c

abbrev priced : Tokens → Option ℕ → Option ℕ → Option ℕ → Option ℕ
priced t (some input) (some output) cached = some (
    (t.input_tokens - t.cached_input_tokens) * input
    + t.cached_input_tokens * or_price cached input
    + t.output_tokens * output)
priced t _ _ cached = none

-- `_token_cost_usd`. Prices are micro-dollars per million tokens and the cost is in pico-dollars, so
-- that the source's division by a million is the change of the unit, and exact as in the source. The
-- prices are decimals that `_decimal_text` wrote, so that reading them raises nothing.
unfoldable pub token_cost_usd : Tokens → PricingEvidence → Option ℕ
token_cost_usd t p =
    if t.input_tokens == 0 && t.output_tokens == 0
    then none
    else priced t p.input_usd_per_million p.output_usd_per_million p.cached_input_usd_per_million

abbrev is_known : Option ℕ → Bool
is_known none = false
is_known (some n) = true

abbrev amount_of : Option ℕ → ℕ
amount_of none = 0
amount_of (some n) = n

abbrev usage_of : String → String → Tokens → Option ℕ → CallUsage
usage_of assignment_id call_id t cost = record {
  assignment_id = assignment_id;
  call_id = call_id;
  input_tokens = t.input_tokens;
  output_tokens = t.output_tokens;
  cached_input_tokens = t.cached_input_tokens;
  amount_usd = amount_of cost;
  authoritative = false;
  cost_known = is_known cost;
}

-- an unknown usage counts no tokens and has no cost
abbrev pub recorded_usage : String → String → PricingEvidence → Option Tokens → CallUsage
recorded_usage assignment_id call_id p none = usage_of assignment_id call_id no_tokens none
recorded_usage assignment_id call_id p (some t) =
    usage_of assignment_id call_id t (token_cost_usd t p)

abbrev same_bool : Bool → Bool → Bool
same_bool a b = if a then b else not b

-- `tuple(existing) == values`
unfoldable pub same_call_usage : CallUsage → CallUsage → Bool
same_call_usage a b =
    a.input_tokens == b.input_tokens
    && (a.output_tokens == b.output_tokens
        && (a.cached_input_tokens == b.cached_input_tokens
            && (a.amount_usd == b.amount_usd
                && (same_bool a.authoritative b.authoritative
                    && same_bool a.cost_known b.cost_known))))

-- `WHERE assignment_id=? AND call_id=?`
unfoldable pub find_recorded : String → String → List CallUsage → Option CallUsage
find_recorded assignment_id call_id [] = none
find_recorded assignment_id call_id (x ∷ usages) =
    if str_eq x.assignment_id assignment_id && str_eq x.call_id call_id
    then some x
    else find_recorded assignment_id call_id usages

abbrev known_amount : CallUsage → Option ℕ
known_amount x = if x.cost_known then some x.amount_usd else none

abbrev pub complete_call :
    CallUsage → UsageStore → Option ProviderCall → Result UsageError UsageStore
complete_call x u none = ok u
complete_call x u (some c) =
    if call_eq c.status ambiguous || call_eq c.status rejected
    then err late_usage
    else ok (record u { calls = set_call x.call_id completed (known_amount x) u.calls })

abbrev pub store_usage : CallUsage → UsageStore → Option CallUsage → Result UsageError UsageStore
store_usage x u (some existing) = if same_call_usage existing x then ok u else err usage_conflict
store_usage x u none =
    complete_call x (record u { usages = u.usages ++ x ∷ [] }) (find_call x.call_id u.calls)

-- `record_call`; `read` is what the adapter of a provider reads from the response, if there is one
unfoldable pub record_call :
    (String → Option (List (Option Tokens)))
    → String
    → String
    → UsageStore
    → Result UsageError UsageStore
record_call read assignment_id call_id u =
    elim (find_assignment assignment_id u.service.assignments) [
      | none ↦ err (unknown_row assignment_id)
      | some a ↦ elim (read a.provider) [
        | none ↦ err (unknown_row a.provider)
        | some values ↦
            let x =
              recorded_usage assignment_id call_id a.payload.pricing_evidence
                (normalize_response values) in
            store_usage x u (find_recorded assignment_id call_id u.usages)
      ]
    ]
