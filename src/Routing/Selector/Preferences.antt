-- ===== src/Routing/Selector/Preferences.antt =====
-- Which candidate is preferred to which, by their costs and scores.
use mathlib.Core.List.{Memᴰ}
use skail.Prelude.{
  ℕ, ◌≤◌, ◌≡◌, sym, ap, ◌∙◌, All-keep, Mem-cases, Bool, true, false, Option, some, List, [], ◌∷◌,
  arith, keep, min, length, All,
}
use skail.Prelude.Int.{ℤ, ◌-ℤ◌}
use skail.Prelude.Order.{lex, tuple_lt}
use skail.Routing.Selector.Requirements.{RoutingMode}
use skail.Routing.Selector.Exclusion.{CapabilityVector, RouteCandidate}
use skail.Routing.Selector.Choice.{stable_key, up, down, no_rank, the_rank}

-- The smaller number decides, and what follows decides between equals.
abbrev pub Decides : ℕ → ℕ → Type 0 → Type 0
Decides a b rest = (a ≤ b) × (a ≡ b → rest)

-- the scores of a candidate, whose capability is known
pub record Scored (c : RouteCandidate) : Type 0 where
  pub scores : CapabilityVector
  pub known : c.profile.capability ≡ some scores

-- the weaker of coding and reasoning
abbrev pub strength : CapabilityVector → ℕ
strength v = min v.coding v.reasoning

-- and its price
pub record Priced (c : RouteCandidate) : Type 0 where
  pub cost : ℕ
  pub priced : c.estimated_cost_usd ≡ some cost

-- `other` does not stand before `best` by provider and model.
abbrev pub IsNoLater : RouteCandidate → RouteCandidate → Type 0
IsNoLater best other = tuple_lt (stable_key other) (stable_key best) ≡ false

-- The stronger one, then the more reliable one, then what follows.
abbrev pub Stronger : CapabilityVector → CapabilityVector → Type 0 → Type 0
Stronger v w rest =
    Decides (strength w) (strength v) (Decides w.tool_reliability v.tool_reliability rest)

-- In the quality mode capability comes before cost, in the other routed modes after it.
abbrev pub Precedes : RoutingMode → RouteCandidate → RouteCandidate → Type 0
Precedes RoutingMode.manual best other = IsNoLater best other
Precedes RoutingMode.quality best other =
    (a : Scored best) × (b : Scored other) × (m : Priced best) × (n : Priced other) × Stronger
      a.scores b.scores (Decides m.cost n.cost (IsNoLater best other))
Precedes _ best other =
    (a : Scored best) × (b : Scored other) × (m : Priced best) × (n : Priced other) × Decides m.cost
      n.cost
      (Stronger a.scores b.scores
        (Decides a.scores.latency b.scores.latency (IsNoLater best other)))

abbrev pub LeadPrecedes : RoutingMode → RouteCandidate → RouteCandidate → Type 0
LeadPrecedes RoutingMode.manual best other = IsNoLater best other
LeadPrecedes _ best other =
    (a : Scored best) × (b : Scored other) × Stronger a.scores b.scores (IsNoLater best other)

-- `best` is a qualified candidate that precedes each of the qualified ones, of which there are n.
pub record IsBest (p : RouteCandidate → Bool) (Before : RouteCandidate → RouteCandidate → Type 0)
    (cs : List RouteCandidate) (best : RouteCandidate) (n : ℕ) : Type 0 where
  pub candidate : Memᴰ best cs
  pub qualified : p best ≡ true
  pub counted : n ≡ length (keep p cs)
  pub preferred : All (Before best) (keep p cs)

pub Decides-map : {X Y : Type 0} (a b : ℕ) → (X → Y) → Decides a b X → Decides a b Y
Decides-map a b f d = (d.0, λ e. f (d.1 e))

pub up_decides :
    (a b : ℕ) (xs ys : List (List ℤ))
    → tuple_lt (up b ∷ ys) (up a ∷ xs) ≡ false
    → Decides a b (tuple_lt ys xs ≡ false)
unfolding lex
up_decides a b xs ys h = (ground (arith, h), λ e. ground (arith, h, e))

down_decides :
    (a b : ℕ) (xs ys : List (List ℤ))
    → tuple_lt (down b ∷ ys) (down a ∷ xs) ≡ false
    → Decides b a (tuple_lt ys xs ≡ false)
unfolding lex ◌-ℤ◌
down_decides a b xs ys h = (ground (arith, h), λ e. ground (arith, h, e))

pub Stronger-map :
    {X Y : Type 0} (v w : CapabilityVector) → (X → Y) → Stronger v w X → Stronger v w Y
Stronger-map v w f =
    Decides-map (strength w) (strength v) (Decides-map w.tool_reliability v.tool_reliability f)

pub stronger_key :
    (v w : CapabilityVector) (xs ys : List (List ℤ))
    → tuple_lt
        (down (strength w) ∷ down w.tool_reliability ∷ ys)
        (down (strength v) ∷ down v.tool_reliability ∷ xs)
      ≡ false
    → Stronger v w (tuple_lt ys xs ≡ false)
stronger_key v w xs ys h =
    Decides-map (strength w) (strength v) (down_decides v.tool_reliability w.tool_reliability xs ys)
      (down_decides (strength v) (strength w) _ _ h)

abbrev pub strength_key : CapabilityVector → List (List ℤ) → List (List ℤ)
strength_key v rest = down (strength v) ∷ down v.tool_reliability ∷ rest

-- A comparison of the ranks is one of the keys that they hold.
pub compared :
    (key : RouteCandidate → Option (List (List ℤ))) (best c : RouteCandidate) (x y : List (List ℤ))
    → key best ≡ some x
    → key c ≡ some y
    → tuple_lt (the_rank (key c)) (the_rank (key best)) ≡ false
    → tuple_lt y x ≡ false
compared key best c x y e f h =
    ap (λ k. tuple_lt y (the_rank k)) (sym e)
    ∙ ap (λ k. tuple_lt (the_rank k) (the_rank (key best))) (sym f)
    ∙ h

-- From the comparison of the ranks to the preference, on the qualified candidates.
pub all_precede :
    (key : RouteCandidate → Option (List (List ℤ)))
    (Before : RouteCandidate → RouteCandidate → Type 0) (best : RouteCandidate)
    (cs : List RouteCandidate)
    → ((c : RouteCandidate)
        → no_rank (key c) ≡ false
        → tuple_lt (the_rank (key c)) (the_rank (key best)) ≡ false
        → Before best c)
    → All (λ c. no_rank (key c) ≡ false) cs
    → All (λ c. tuple_lt (the_rank (key c)) (the_rank (key best)) ≡ false) cs
    → All (Before best) cs
all_precede key Before best [] f k h = tt
all_precede key Before best (c ∷ cs) f k h = (f c k.0 h.0, all_precede key Before best cs f k.1 h.1)

pub All-keep-mem :
    (p q : RouteCandidate → Bool) (cs : List RouteCandidate) (c : RouteCandidate)
    → Memᴰ c cs
    → p c ≡ true
    → All (λ x. q x ≡ false) (keep p cs)
    → q c ≡ false
All-keep-mem p q cs c m h all = member cs m ((All-keep _ p cs).0 all)
  where
    member :
        (xs : List RouteCandidate)
        → Memᴰ c xs
        → All (λ x. p x ≡ true → q x ≡ false) xs
        → q c ≡ false
    member [] n g = elim n [ ]
    member (x ∷ xs) n g =
        Mem-cases (λ same. ap q same ∙ g.0 (ap p (sym same) ∙ h)) (λ later. member xs later g.1) n
