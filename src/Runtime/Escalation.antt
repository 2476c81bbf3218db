-- ===== src/Runtime/Escalation.antt =====
-- src/skail/runtime/escalation.py: the stronger floor and the short handoff of a second attempt.
-- Floors are whole hundredths; the regular expression of the validation path is a parameter.
use skail.Prelude.{
  ℕ, zero, suc, ◌+◌, ◌*◌, ◌≤◌, ◌≡◌, String, Bool, Option, none, some, List, [], ◌∷◌, arith, min,
  any, str_eq, if◌then◌else◌,
}

unfoldable pub escalation_floor : Option ℕ → Option ℕ
escalation_floor none = none
escalation_floor (some current_floor) = some (min (current_floor + 15) 90)

pub record FailureHandoff : Type 0 where
  pub summary : String
  pub evidence : List String
  pub changed_paths : List String
  pub verification : List String
  pub failure_category : Option String
  pub validation_path : Option String

-- `xs[:n]`
unfoldable pub take : ℕ → List String → List String
take zero xs = []
take (suc n) [] = []
take (suc n) (x ∷ xs) = x ∷ take n xs

-- `text[:n]`
unfoldable take_text : ℕ → String → String
take_text zero s = ""
take_text (suc n) String.[] = ""
take_text (suc n) (String.◌∷◌ c s) = String.◌∷◌ c (take_text n s)

abbrev categories : List String
categories =
    "provider_error" ∷ "malformed_result" ∷ "result_validation" ∷ "routing_ineligible"
    ∷ "budget_blocked" ∷ "task_failure" ∷ []

abbrev only_if : (String → Bool) → Option String → Option String
only_if p none = none
only_if p (some s) = if p s then some s else none

module _ (fullmatch : String → Bool) where
  unfoldable pub bounded_handoff : FailureHandoff → ℕ → FailureHandoff
  unfolding take take_text
  bounded_handoff h max_items = record {
    summary = take_text 1000 h.summary;
    evidence = take max_items h.evidence;
    changed_paths = take max_items h.changed_paths;
    verification = take max_items h.verification;
    failure_category = only_if (λ c. any (str_eq c) categories) h.failure_category;
    validation_path = only_if fullmatch h.validation_path;
  }

-- The floor after n escalations in a row.
abbrev pub escalations : ℕ → Option ℕ → Option ℕ
escalations zero f = f
escalations (suc n) f = escalations n (escalation_floor f)

-- A floor f of at most 0.90 is after n escalations the lesser of f + n * 0.15 and 0.90, so that
-- escalation never lowers it and never passes 0.90.
escalations_capped : (n f : ℕ) → f ≤ 90 → escalations n (some f) ≡ some (min (f + n * 15) 90)
unfolding escalation_floor
escalations_capped zero f le = ground arith
escalations_capped (suc n) f le = ground (arith, escalations_capped n (min (f + 15) 90))
