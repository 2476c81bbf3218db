-- ===== src/Routing/Selector/Floors.antt =====
-- The capability floor that the requirement builder sets.
use skail.Prelude.{
  ℕ, ◌+◌, ◌≤◌, String, ◌≡◌, inl, inr, true, false, ◌||◌, not, some, arith, if◌then◌else◌, max, min,
  Option-cases, ok,
}
use skail.Prelude.Dict.{get}
use skail.Routing.Selector.Requirements.{
  is_manual, RoutingRequirements, BuildInput, build, requirements, floor_of, risk_floors,
  role_floors, adjusted,
}
use skail.Routing.Selector.Exclusion.{is_none}

record Built (i : BuildInput) (r : RoutingRequirements) : Type 0 where
  role_floor : ℕ
  base : ℕ
  from_role : get role_floors i.role ≡ some role_floor
  hard : i.role_hard_min ≤ role_floor
  over_role : role_floor ≤ base
  over_risk : risk_floors i.risk ≤ base
  same : r ≡ requirements i base

build_inv : (i : BuildInput) (r : RoutingRequirements) → build i ≡ ok r → Built i r
unfolding build
build_inv i r h = elim (Option-cases (get role_floors i.role)) [
  | inl e ↦ let g = rw (e, build) at h in cc
  | inr e ↦ elim (Option-cases i.hinted_floor) [
    | inl n ↦ record {
      role_floor = e.0;
      base = max e.0 (risk_floors i.risk);
      from_role = e.1;
      hard = ground (arith, h, e.1, n);
      over_role = omega arith;
      over_risk = omega arith;
      same = ground (arith, h, e.1, n);
    }
    | inr n ↦ record {
      role_floor = e.0;
      base = max (max e.0 (risk_floors i.risk)) n.0;
      from_role = e.1;
      hard = ground (arith, h, e.1, n.1);
      over_role = omega arith;
      over_risk = omega arith;
      same = ground (arith, h, e.1, n.1);
    }
  ]
]

role_floor_max : (role : String) (f : ℕ) → get role_floors role ≡ some f → f ≤ 60
unfolding get
role_floor_max role f h = ground (arith, h)

-- The floor that is built for a routed assignment is at least the hard minimum of the role and at
-- most 0.85, or 0.90 for an escalation; outside the economy mode it is at least the floor of the
-- role and that of the risk.
build_floor_bounds :
    (i : BuildInput) (r : RoutingRequirements)
    → build i ≡ ok r
    → is_manual i.mode ≡ false
    → (floor : ℕ) × (r.capability_floor ≡ some floor)
      × (i.role_hard_min ≤ floor)
      × (floor ≤ (if i.escalated then 90 else 85))
      × (adjusted i.mode (max (risk_floors i.risk) i.role_hard_min) ≤ floor)
unfolding requirements floor_of adjusted risk_floors
build_floor_bounds i r h routed =
    let b = build_inv i r h in
    let small = role_floor_max i.role b.role_floor b.from_role in
    (
      min (max (adjusted i.mode b.base + (if i.escalated then 15 else 0)) i.role_hard_min)
          (if i.escalated then 90 else 85),
      ground (arith, b.same, routed),
      ground (arith, b.hard, small),
      ground arith,
      ground (arith, b.hard, b.over_role, b.over_risk, small),
    )

-- A floor is missing only in the manual mode.
pub build_floored :
    (i : BuildInput) (r : RoutingRequirements)
    → build i ≡ ok r
    → is_manual r.mode || not (is_none r.capability_floor) ≡ true
unfolding requirements floor_of
build_floored i r h = ground (arith, (build_inv i r h).same)
