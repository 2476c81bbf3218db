-- ===== src/Routing/Selector/Requirements.antt =====
-- src/skail/routing/requirements.py: `RequirementBuilder`. Floors and capability scores, floats
-- between 0 and 1 that are rounded to two places, are whole hundredths.
use skail.Prelude.{
  ℕ, ◌+◌, ◌-◌, String, Bool, true, false, ◌&&◌, not, Option, none, some, List, [], ◌∷◌, str_eq,
  if◌then◌else◌, leb, min, max, any, Result, ok, err,
}
use skail.Prelude.Dict.{Dict, get}
use skail.Prelude.Sets.{contains}
use skail.Prelude.Order.{sorted, by_key, lex, codes}
use skail.Prelude.Int.{ltb_ℤ}

pub data RoutingMode : Type 0 where
  auto economy quality manual : RoutingMode

abbrev pub is_manual : RoutingMode → Bool
is_manual RoutingMode.manual = true
is_manual _ = false

pub data TaskRisk : Type 0 where
  trivial routine bounded complex high : TaskRisk

abbrev pub role_floors : Dict ℕ
role_floors =
    ("explorer", 35)
    ∷ ("tester", 40)
    ∷ ("researcher", 45)
    ∷ ("general-purpose", 50)
    ∷ ("implementer", 50)
    ∷ ("reviewer", 55)
    ∷ ("lead", 60)
    ∷ []

unfoldable pub risk_floors : TaskRisk → ℕ
risk_floors TaskRisk.trivial = 25
risk_floors TaskRisk.routine = 35
risk_floors TaskRisk.bounded = 45
risk_floors TaskRisk.complex = 60
risk_floors TaskRisk.high = 70

-- The adjustment of the mode, added to a floor of at least 0.35 where it is negative.
unfoldable pub adjusted : RoutingMode → ℕ → ℕ
adjusted RoutingMode.auto floor = floor
adjusted RoutingMode.economy floor = floor - 10
adjusted RoutingMode.quality floor = floor + 15
adjusted RoutingMode.manual floor = floor

abbrev pub Key : Type 0
Key = String × String

abbrev pub key_eq : Key → Key → Bool
key_eq a b = str_eq a.0 b.0 && str_eq a.1 b.1

pub record RoutingRequirements : Type 0 where
  pub capability_floor : Option ℕ
  pub tools_required : Bool
  pub structured_output_required : Bool
  pub minimum_context_tokens : ℕ
  pub minimum_output_tokens : ℕ
  pub modalities : List String
  pub role : String
  pub risk : TaskRisk
  pub mode : RoutingMode
  pub role_hard_min : ℕ
  pub escalated : Bool
  pub failed_capability_fit : Option ℕ
  pub excluded_models : List Key

pub record BuildInput : Type 0 where
  pub role : String
  pub risk : TaskRisk
  pub mode : RoutingMode
  pub role_hard_min : ℕ
  pub required_tools : Bool
  pub required_structured_output : Bool
  pub required_context_tokens : ℕ
  pub required_output_tokens : ℕ
  pub required_modalities : List String
  pub hinted_floor : Option ℕ
  pub hinted_context_tokens : ℕ
  pub hinted_output_tokens : ℕ
  pub hinted_modalities : List String
  pub escalated : Bool
  pub failed_capability_fit : Option ℕ
  pub failed_model : Option Key
  pub excluded_models : List Key

pub data BuildError : Type 0 where
  unknown_role role_hard_min_invalid hinted_floor_invalid : BuildError

-- `exclusions.add(failed_model)`
abbrev exclusions : List Key → Option Key → List Key
exclusions xs none = xs
exclusions xs (some k) = if any (key_eq k) xs then xs else k ∷ xs

-- `required | hinted`
unfoldable pub union : List String → List String → List String
union [] ys = ys
union (x ∷ xs) ys = let rest = union xs ys in if contains ys x then rest else x ∷ rest

-- `floor` for a base of whole hundredths, which `round(..., 2)` gives back; a hinted floor of more
-- places, which it would round, is not in the model
unfoldable pub floor_of : BuildInput → ℕ → Option ℕ
floor_of i base =
    if is_manual i.mode
    then none
    else some (
        min (max (adjusted i.mode base + (if i.escalated then 15 else 0)) i.role_hard_min)
          (if i.escalated then 90 else 85))

unfoldable pub requirements : BuildInput → ℕ → RoutingRequirements
requirements i base = record {
  capability_floor = floor_of i base;
  tools_required = i.required_tools;
  structured_output_required = i.required_structured_output;
  minimum_context_tokens = max i.required_context_tokens i.hinted_context_tokens;
  minimum_output_tokens = max i.required_output_tokens i.hinted_output_tokens;
  modalities = sorted (by_key (lex ltb_ℤ) codes) (union i.required_modalities i.hinted_modalities);
  role = i.role;
  risk = i.risk;
  mode = i.mode;
  role_hard_min = i.role_hard_min;
  escalated = i.escalated;
  failed_capability_fit = i.failed_capability_fit;
  excluded_models = exclusions i.excluded_models i.failed_model;
}

abbrev hinted : BuildInput → Option ℕ → ℕ → Result BuildError RoutingRequirements
hinted i none base = ok (requirements i base)
hinted i (some hint) base =
    if leb hint 100
    then ok (requirements i (max base hint))
    else err BuildError.hinted_floor_invalid

unfoldable pub build : BuildInput → Result BuildError RoutingRequirements
build i = elim (get role_floors i.role) [
  | none ↦ err BuildError.unknown_role
  | some role_floor ↦
      if not (leb i.role_hard_min role_floor)
      then err BuildError.role_hard_min_invalid
      else hinted i i.hinted_floor (max role_floor (risk_floors i.risk))
]
