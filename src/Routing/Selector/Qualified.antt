-- ===== src/Routing/Selector/Qualified.antt =====
-- What a candidate must satisfy, written out, against `_exclusion_reason`.
use skail.Prelude.{
  ◌≡◌, ◌↔◌, refl, Bool, true, false, ◌&&◌, ◌||◌, not, Option, none, some, arith, any, all-All, All,
  inl, inr, Bool-cases,
}
use skail.Prelude.Int.{ℤ}
use skail.Prelude.Sets.{contains}
use skail.Routing.Selector.Requirements.{is_manual, Key, key_eq, RoutingRequirements}
use skail.Routing.Selector.Exclusion.{
  RouteCandidate, key_of, capability_fit, not_stronger, exclusion_reason, support_reason,
  capability_reason, price_reason,
}
use skail.Routing.Selector.Selections.{qualifies}
use skail.Routing.Selector.Conditions.{
  Supports, Holds, Surpasses, Reaches, Affords, pinned_iff, Supports-iff, Holds-iff, Reaches-iff,
  Surpasses-iff, Affords-iff, when_iff,
}

pub record IsQualified (r : RoutingRequirements) (budget : Option ℤ) (manual_model : Option Key)
    (c : RouteCandidate) : Type 0 where
  pub pinned : is_manual r.mode ≡ true → manual_model ≡ some (key_of c)
  pub allowed : any (key_eq (key_of c)) r.excluded_models ≡ false
  pub configured : c.configured ≡ true
  pub healthy : c.healthy ≡ true
  pub enabled : c.enabled ≡ true
  pub eligible : is_manual r.mode && not r.escalated ≡ false → c.profile.auto_eligible ≡ true
  pub tools : r.tools_required ≡ true → Supports r.mode c.profile.supports_tools
  pub structured :
      r.structured_output_required ≡ true → Supports r.mode c.profile.supports_structured_output
  pub context : Holds r.mode c.profile.context_tokens r.minimum_context_tokens
  pub output : Holds r.mode c.profile.max_output_tokens r.minimum_output_tokens
  pub modalities : All (λ m. contains c.profile.input_modalities m ≡ true) r.modalities
  pub escalation : r.escalated ≡ true → Surpasses r.failed_capability_fit (capability_fit c.profile)
  pub floor : Reaches r.capability_floor (capability_fit c.profile)
  pub price : Affords r.mode budget c.estimated_cost_usd

price_reason_iff :
    (c : RouteCandidate) (r : RoutingRequirements) (b : Option ℤ)
    → (price_reason c r b ≡ none)
      ↔ Reaches r.capability_floor (capability_fit c.profile)
        × Affords r.mode b c.estimated_cost_usd
unfolding price_reason
price_reason_iff c r b = (
  (λ h. (
    (Reaches-iff r.capability_floor (capability_fit c.profile)).0 (ground (arith, h)),
    (Affords-iff r.mode b c.estimated_cost_usd).0 (ground (arith, h)),
  )),
  (λ h. ground (
    arith,
    (Reaches-iff r.capability_floor (capability_fit c.profile)).1 h.0,
    (Affords-iff r.mode b c.estimated_cost_usd).1 h.1,
  )),
)

capability_reason_iff :
    (c : RouteCandidate) (r : RoutingRequirements) (b : Option ℤ)
    → (capability_reason c r b ≡ none)
      ↔ (r.escalated ≡ true → Surpasses r.failed_capability_fit (capability_fit c.profile))
        × (price_reason c r b ≡ none)
unfolding capability_reason price_reason
capability_reason_iff c r b = elim (Bool-cases r.escalated) [
  | inl e ↦ rw e ((λ h. ((λ w. (f.0 h).0), (f.0 h).1)), (λ h. f.1 (h.0 refl, h.1)))
  | inr e ↦ rw e ((λ h. ((λ w. cc), h)), (λ h. h.1))
]
  where
    f :
        (not_stronger r.failed_capability_fit (capability_fit c.profile) (price_reason c r b)
          ≡ none)
        ↔ Surpasses r.failed_capability_fit (capability_fit c.profile) × (price_reason c r b ≡ none)
    f = Surpasses-iff r.failed_capability_fit (capability_fit c.profile) (price_reason c r b)

record IsSupported (c : RouteCandidate) (r : RoutingRequirements) (b : Option ℤ) : Type 0 where
  pub tools : r.tools_required ≡ true → Supports r.mode c.profile.supports_tools
  pub structured :
      r.structured_output_required ≡ true → Supports r.mode c.profile.supports_structured_output
  pub context : Holds r.mode c.profile.context_tokens r.minimum_context_tokens
  pub output : Holds r.mode c.profile.max_output_tokens r.minimum_output_tokens
  pub modalities : All (λ m. contains c.profile.input_modalities m ≡ true) r.modalities
  pub rest : capability_reason c r b ≡ none

support_reason_iff :
    (c : RouteCandidate) (r : RoutingRequirements) (b : Option ℤ)
    → (support_reason c r b ≡ none) ↔ IsSupported c r b
unfolding support_reason
support_reason_iff c r b =
    let p = c.profile in
    let t = when_iff r.tools_required _ _ (Supports-iff r.mode p.supports_tools) in
    let s =
      when_iff r.structured_output_required _ _
        (Supports-iff r.mode p.supports_structured_output) in
    let i = Holds-iff r.mode p.context_tokens r.minimum_context_tokens in
    let o = Holds-iff r.mode p.max_output_tokens r.minimum_output_tokens in
    let m = all-All (contains p.input_modalities) r.modalities in
    (
      (λ h. record {
        tools = t.0 (ground (arith, h));
        structured = s.0 (ground (arith, h));
        context = i.0 (ground (arith, h));
        output = o.0 (ground (arith, h));
        modalities = m.0 (ground (arith, h));
        rest = ground (arith, h);
      }),
      (λ h. ground (
        arith,
        t.1 h.tools,
        s.1 h.structured,
        i.1 h.context,
        o.1 h.output,
        m.1 h.modalities,
        h.rest,
      )),
    )

-- No reason excludes a candidate exactly when it satisfies all that is written out.
pub exclusion_reason_iff :
    (c : RouteCandidate) (r : RoutingRequirements) (b : Option ℤ) (m : Option Key)
    → (exclusion_reason c r b m ≡ none) ↔ IsQualified r b m c
unfolding exclusion_reason
exclusion_reason_iff c r b m =
    let pin = when_iff (is_manual r.mode) _ _ (pinned_iff (key_of c) m) in
    let supported = support_reason_iff c r b in
    let able = capability_reason_iff c r b in
    let paid = price_reason_iff c r b in
    (
      (λ h.
          let u = supported.0 (ground (arith, h)) in
          let v = able.0 u.rest in
          let w = paid.0 v.1 in
          record {
            pinned = pin.0 (ground (arith, h));
            allowed = ground (arith, h);
            configured = ground (arith, h);
            healthy = ground (arith, h);
            enabled = ground (arith, h);
            eligible = λ e. ground (arith, h, e);
            tools = u.tools;
            structured = u.structured;
            context = u.context;
            output = u.output;
            modalities = u.modalities;
            escalation = v.0;
            floor = w.0;
            price = w.1;
          }),
      (λ q.
          let w = paid.1 (q.floor, q.price) in
          let v = able.1 (q.escalation, w) in
          let u = supported.1 (record {
            tools = q.tools;
            structured = q.structured;
            context = q.context;
            output = q.output;
            modalities = q.modalities;
            rest = v;
          }) in
          ground (
            arith,
            pin.1 q.pinned,
            q.allowed,
            q.configured,
            q.healthy,
            q.enabled,
            eligible_test (is_manual r.mode) r.escalated c.profile.auto_eligible q.eligible,
            u,
          )),
    )
  where
    eligible_test :
        (manual escalated auto : Bool)
        → (manual && not escalated ≡ false → auto ≡ true)
        → (not manual || escalated) && not auto ≡ false
    eligible_test true true auto h = ground (arith, h refl)
    eligible_test true false auto h = refl
    eligible_test false escalated auto h = ground (arith, h refl)

pub qualifies_iff :
    (r : RoutingRequirements) (b : Option ℤ) (m : Option Key) (c : RouteCandidate)
    → (qualifies r b m c ≡ true) ↔ IsQualified r b m c
qualifies_iff r b m c = (
  (λ h. (exclusion_reason_iff c r b m).0 (ground (arith, h))),
  (λ q. ground (arith, (exclusion_reason_iff c r b m).1 q)),
)
