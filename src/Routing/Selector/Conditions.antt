-- ===== src/Routing/Selector/Conditions.antt =====
-- The single conditions on a candidate, each against the test of `_exclusion_reason` for it.
use skail.Prelude.{
  ℕ, String, ◌≤◌, ◌<◌, ◌≡◌, ◌↔◌, refl, sym, ap, Bool, true, false, ◌&&◌, ◌||◌, not, Option, none,
  some, arith, eq_iff,
}
use skail.Prelude.Int.{ℤ, pos, ◌≤ℤ◌}
use skail.Routing.Selector.Requirements.{RoutingMode, is_manual, Key, key_eq}
use skail.Routing.Selector.Exclusion.{
  is_none, differs, is_false, is_true, is_below, lacks_floor, exceeds, not_stronger,
}

-- What a profile leaves open counts as supported, or as large enough, in the manual mode only.
abbrev pub Supports : RoutingMode → Option Bool → Type 0
Supports mode none = is_manual mode ≡ true
Supports mode (some b) = b ≡ true

abbrev pub Holds : RoutingMode → Option ℕ → ℕ → Type 0
Holds mode none n = is_manual mode ≡ true
Holds mode (some x) n = n ≤ x

-- A fit above that of the attempt that failed, where both are known.
abbrev pub Surpasses : Option ℕ → Option ℕ → Type 0
Surpasses (some failed) (some fit) = failed < fit
Surpasses _ _ = true ≡ false

abbrev pub Reaches : Option ℕ → Option ℕ → Type 0
Reaches none fit = Unit
Reaches (some floor) (some fit) = floor ≤ fit
Reaches (some floor) none = true ≡ false

-- A candidate without a price is for the manual mode without a budget.
abbrev pub Affords : RoutingMode → Option ℤ → Option ℕ → Type 0
Affords mode none none = is_manual mode ≡ true
Affords mode (some budget) none = true ≡ false
Affords mode none (some cost) = Unit
Affords mode (some budget) (some cost) = pos cost ≤ℤ budget

key_eq_iff : (a b : Key) → (key_eq a b ≡ true) ↔ (a ≡ b)
key_eq_iff (p, m) (q, n) = (
  (λ h i. ((eq_iff p q).0 (ground (arith, h)) i, (eq_iff m n).0 (ground (arith, h)) i)),
  (λ e.
      ground (
        arith,
        (eq_iff p q).1 (ap (λ (k : Key). k.0) e),
        (eq_iff m n).1 (ap (λ (k : Key). k.1) e),
      )),
)

some_key : {a b : Key} → ◌≡◌ {A = Option Key} (some a) (some b) → a ≡ b
some_key h = ground (arith, h)

pub pinned_iff : (key : Key) (m : Option Key) → (differs key m ≡ false) ↔ (m ≡ some key)
pinned_iff key none = ((λ h. ground (arith, h)), (λ h. ground (arith, h)))
pinned_iff key (some k) = (
  (λ h. ap some (sym ((key_eq_iff key k).0 (ground (arith, h))))),
  (λ h. ground (arith, (key_eq_iff key k).1 (sym (some_key h)))),
)

pub Supports-iff :
    (mode : RoutingMode) (b : Option Bool)
    → (is_false b || (not (is_manual mode) && not (is_true b)) ≡ false) ↔ Supports mode b
Supports-iff mode none = ((λ h. ground (arith, h)), (λ h. ground (arith, h)))
Supports-iff mode (some true) = ((λ h. refl), (λ h. ground arith))
Supports-iff mode (some false) = ((λ h. ground (arith, h)), (λ h. ground (arith, h)))

pub Holds-iff :
    (mode : RoutingMode) (x : Option ℕ) (n : ℕ)
    → ((is_none x && not (is_manual mode)) || is_below x n ≡ false) ↔ Holds mode x n
Holds-iff mode none n = ((λ h. ground (arith, h)), (λ h. ground (arith, h)))
Holds-iff mode (some x) n = ((λ h. ground (arith, h)), (λ h. ground (arith, h)))

pub Reaches-iff : (floor fit : Option ℕ) → (lacks_floor floor fit ≡ false) ↔ Reaches floor fit
Reaches-iff none fit = ((λ h. tt), (λ h. refl))
Reaches-iff (some f) none = ((λ h. ground (arith, h)), (λ h. ground (arith, h)))
Reaches-iff (some f) (some x) = ((λ h. ground (arith, h)), (λ h. ground (arith, h)))

pub Surpasses-iff :
    (failed fit : Option ℕ) (rest : Option String)
    → (not_stronger failed fit rest ≡ none) ↔ Surpasses failed fit × (rest ≡ none)
Surpasses-iff none fit rest = ((λ h. ground (arith, h)), (λ h. ground (arith, h)))
Surpasses-iff (some f) none rest = ((λ h. ground (arith, h)), (λ h. ground (arith, h)))
Surpasses-iff (some f) (some x) rest =
    ((λ h. (ground (arith, h), ground (arith, h))), (λ h. ground (arith, h.0, h.1)))

pub Affords-iff :
    (mode : RoutingMode) (budget : Option ℤ) (cost : Option ℕ)
    → ((is_none cost && (not (is_manual mode) || not (is_none budget))) || exceeds cost budget
        ≡ false)
      ↔ Affords mode budget cost
Affords-iff mode none none = ((λ h. ground (arith, h)), (λ h. ground (arith, h)))
Affords-iff mode (some b) none = ((λ h. ground (arith, h)), (λ h. ground (arith, h)))
Affords-iff mode none (some x) = ((λ h. tt), (λ h. ground arith))
Affords-iff mode (some b) (some x) = ((λ h. ground (arith, h)), (λ h. ground (arith, h)))

-- A test that is made only under a condition.
pub when_iff : (b t : Bool) (P : Type 0) → (t ≡ false) ↔ P → (b && t ≡ false) ↔ (b ≡ true → P)
when_iff true t P f = ((λ h w. f.0 h), (λ h. f.1 (h refl)))
when_iff false t P f = ((λ h w. cc), (λ h. refl))
