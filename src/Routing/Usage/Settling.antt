-- ===== src/Routing/Usage/Settling.antt =====
-- `_settle_attempt`: the cost of an attempt's calls, and its settlement in the ledger.
use skail.Prelude.{
  ℕ, ◌+◌, String, Bool, true, false, ◌&&◌, ◌||◌, not, Option, none, some, List, [], ◌∷◌, ◌++◌,
  str_eq, str_append, if◌then◌else◌, max, any, all, keep, Result, ok, err,
}
use skail.Routing.Budget.Tables.{
  UsageAuthority, authoritative_actual, token_derived_estimate, reconciled_estimate,
  conservative_estimate, Tables, LedgerError,
}
use skail.Routing.Budget.Operations.{Percent}
use skail.Routing.Budget.Settle.{Settlement, settle}
use skail.Routing.Assignment.Tables.{PricingEvidence, AssignmentRow}
use skail.Routing.Assignment.Lookups.{find_assignment}
use skail.Routing.Assignment.Persisting.{cost_or_zero}
use skail.Routing.Usage.Tables.{
  started, completed, ambiguous, call_eq, ProviderCall, CallUsage, UsageStore, UsageError,
  unknown_row,
}
use skail.Routing.Usage.Recording.{token_cost_usd}

abbrev is_some : Option ℕ → Bool
is_some none = false
is_some (some n) = true

-- `WHERE assignment_id=?`
abbrev pub of_assignment : String → CallUsage → Bool
of_assignment id x = str_eq x.assignment_id id

-- the stored amount, or what the tokens cost by the recorded prices
unfoldable pub resolved_cost : PricingEvidence → CallUsage → Option ℕ
resolved_cost p x =
    if x.cost_known
    then some x.amount_usd
    else token_cost_usd
        (record {
          input_tokens = x.input_tokens;
          output_tokens = x.output_tokens;
          cached_input_tokens = x.cached_input_tokens;
        })
        p

-- `sum(value for value in resolved_costs if value is not None)`
unfoldable pub known_cost : PricingEvidence → List CallUsage → ℕ
known_cost p [] = 0
known_cost p (x ∷ calls) = cost_or_zero (resolved_cost p x) + known_cost p calls

abbrev pub is_recorded : List CallUsage → String → Bool
is_recorded calls id = any (λ (x : CallUsage). str_eq x.call_id id) calls

abbrev pub is_unaccounted : String → List CallUsage → ProviderCall → Bool
is_unaccounted assignment_id calls c =
    str_eq c.assignment_id assignment_id
    && ((call_eq c.status started || (call_eq c.status completed || call_eq c.status ambiguous))
        && not (is_recorded calls c.call_id))

unfoldable pub has_unaccounted_calls : String → List CallUsage → List ProviderCall → Bool
has_unaccounted_calls assignment_id calls provider_calls =
    any (is_unaccounted assignment_id calls) provider_calls

abbrev non_empty : List CallUsage → Bool
non_empty [] = false
non_empty (x ∷ calls) = true

unfoldable pub all_measured : PricingEvidence → List CallUsage → Bool → Bool
all_measured p calls unaccounted =
    non_empty calls && (not unaccounted && all (λ x. is_some (resolved_cost p x)) calls)

unfoldable pub all_authoritative : List CallUsage → Bool → Bool
all_authoritative calls unaccounted =
    non_empty calls
    && (not unaccounted && all (λ (x : CallUsage). x.authoritative && x.cost_known) calls)

-- the cost of an attempt: what its calls cost if all are measured, else at least the estimate
unfoldable pub attempt_cost : PricingEvidence → ℕ → List CallUsage → Bool → ℕ
attempt_cost p estimated calls unaccounted =
    if all_measured p calls unaccounted
    then known_cost p calls
    else max estimated (known_cost p calls)

abbrev authority_of : PricingEvidence → List CallUsage → Bool → Bool → UsageAuthority
authority_of p calls unaccounted reconciled =
    if all_authoritative calls unaccounted
    then authoritative_actual
    else if all_measured p calls unaccounted
    then token_derived_estimate
    else if reconciled
    then reconciled_estimate
    else conservative_estimate

-- the arguments of the call of `settle`
unfoldable pub settlement_of : AssignmentRow → Bool → UsageStore → Settlement
settlement_of a reconciled u =
    let calls = keep (of_assignment a.assignment_id) u.usages in
    let unaccounted = has_unaccounted_calls a.assignment_id calls u.calls in
    let p = a.payload.pricing_evidence in
    record {
      reservation_id = a.payload.assignment.reservation_id;
      usage_id = str_append "usage:" a.assignment_id;
      usage = record {
        cost_usd =
            some (attempt_cost p a.payload.assignment.estimated_attempt_cost_usd calls unaccounted);
        authority = authority_of p calls unaccounted reconciled;
      };
      idempotency_key = str_append "attempt-usage:" a.assignment_id;
    }

abbrev with_ledger : UsageStore → Tables → UsageStore
with_ledger u db = record u { service = record u.service { ledger = db } }

-- the failure of an attempt as a whole, without a call
abbrev attempt_failure : String → UsageStore → UsageStore
attempt_failure id u = record u {
  failures = u.failures ++ record { assignment_id = id; call_id = none; is_estimated = false } ∷ [];
}

-- How `_settle_attempt` ends: a refused settlement raises after its failure has been recorded.
pub data Settled : Type 0 where
  settled_as : UsageStore → Settled
  settlement_refused : UsageStore → Settled

abbrev conclude_settlement : String → UsageStore → Result LedgerError Tables → Settled
conclude_settlement id u (ok db) = settled_as (with_ledger u db)
conclude_settlement id u (err e) = settlement_refused (attempt_failure id u)

unfoldable pub settle_row : Percent → AssignmentRow → Bool → UsageStore → Settled
settle_row p a reconciled u =
    conclude_settlement a.assignment_id u (settle p (settlement_of a reconciled u) u.service.ledger)

-- `settle_attempt`
unfoldable settle_attempt : Percent → String → UsageStore → Result UsageError Settled
settle_attempt p assignment_id u = elim (find_assignment assignment_id u.service.assignments) [
  | none ↦ err (unknown_row assignment_id)
  | some a ↦ ok (settle_row p a false u)
]
