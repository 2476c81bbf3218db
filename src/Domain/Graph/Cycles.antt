-- ===== src/Domain/Graph/Cycles.antt =====
-- Paths of dependencies: a search that reports a cycle has met one, and an order excludes them.
use skail.Prelude.{
  ℕ, zero, suc, ◌<◌, ◌≤◌, String, ◌≡◌, refl, ◌⊎◌, inl, inr, Bool, true, false, none, some, List, [],
  ◌∷◌, arith, all, length, str_eq, eq_iff, eq_refl, if◌then◌else◌, Bool-cases, Option-cases, subst,
}
use skail.Prelude.Dict.{get}
use skail.Prelude.Sets.{contains, add, contains-add}
use skail.Domain.Graph.{Graph, Search, and_then, search_all, visit, explore}
use skail.Domain.Graph.Orders.{IsOrder}

-- y is a dependency of x, or of one of its dependencies, and so on.
pub data Reaches (g : Graph) : String → String → Type 0 where
  direct :
      {x y : String} (ds : List String) → get g x ≡ some ds → contains ds y ≡ true → Reaches g x y
  further :
      {x y z : String} (ds : List String)
      → Reaches g x y
      → get g y ≡ some ds
      → contains ds z ≡ true
      → Reaches g x z

abbrev is_done : Search → Bool
is_done (Search.done v) = true
is_done _ = false

not_bad {κ} :
    {B : Type κ} (v : List String) (bad : Search) → is_done bad ≡ false → Search.done v ≡ bad → B
not_bad v (Search.done w) k h = cc
not_bad v Search.cyclic k h = cc
not_bad v Search.missing k h = cc
not_bad v Search.exhausted k h = cc

and_then_fails :
    (s : Search) (next : List String → Search) (bad : Search)
    → is_done bad ≡ false
    → and_then s next ≡ bad
    → (s ≡ bad) ⊎ ((w : List String) × (s ≡ Search.done w) × (next w ≡ bad))
and_then_fails (Search.done w) next bad k h = inr (w, refl, h)
and_then_fails Search.cyclic next bad k h = inl h
and_then_fails Search.missing next bad k h = inl h
and_then_fails Search.exhausted next bad k h = inl h

-- The visit of a dependency that made the loop fail.
pub search_all_fails :
    (rest : String → List String → Search) (bad : Search) (ds v : List String)
    → is_done bad ≡ false
    → search_all rest ds v ≡ bad
    → (d : String) × (w : List String) × (contains ds d ≡ true) × (rest d w ≡ bad)
unfolding search_all contains
search_all_fails rest bad [] v k h = not_bad v bad k h
search_all_fails rest bad (d ∷ ds) v k h =
    elim (and_then_fails (rest d v) (search_all rest ds) bad k h) [
      | inl e ↦ (d, v, rw (eq_refl d) refl, e)
      | inr e ↦
          let (c, w, member, fails) = search_all_fails rest bad ds e.0 k e.2 in
          (c, w, ground (arith, member), fails)
    ]

-- How a visit can fail: at once, or below one of the dependencies.
pub visit_fails :
    (n : ℕ) (g : Graph) (visiting : List String) (id : String) (v : List String) (bad : Search)
    → is_done bad ≡ false
    → visit (suc n) g visiting id v ≡ bad
    → ((contains visiting id ≡ true) × (Search.cyclic ≡ bad))
      ⊎ ((get g id ≡ none) × (Search.missing ≡ bad))
      ⊎ ((ds : List String) × (d : String) × (w : List String) × (contains visiting id ≡ false)
          × (get g id ≡ some ds)
          × (contains ds d ≡ true)
          × (visit n g (add visiting id) d w ≡ bad))
unfolding visit
visit_fails n g visiting id v bad k h = elim (Bool-cases (contains visiting id)) [
  | inl c ↦ inl (c, rw c at h)
  | inr c ↦ elim (Bool-cases (contains v id)) [
    | inl s ↦ not_bad v bad k (rw (c, s) at h)
    | inr s ↦ inr (elim (Option-cases (get g id)) [
      | inl e ↦ inl (e, rw (c, s, e) at h)
      | inr e ↦ elim (and_then_fails _ _ bad k (rw (c, s, e.1) at h)) [
        | inl f ↦
            let (d, w, member, fails) =
              search_all_fails (visit n g (add visiting id)) bad e.0 v k f in
            inr (e.0, d, w, c, e.1, member, fails)
        | inr f ↦ not_bad _ bad k f.2
      ]
    ])
  ]
]

way_on :
    (g : Graph) (visiting : List String) (id d : String) (ds : List String)
    → ((x : String) → contains visiting x ≡ true → Reaches g x id)
    → get g id ≡ some ds
    → contains ds d ≡ true
    → (x : String) → contains (add visiting id) x ≡ true
    → Reaches g x d
way_on g visiting id d ds way known member x h = elim (Bool-cases (contains visiting x)) [
  | inl c ↦ further ds (way x c) known member
  | inr c ↦
      let same : id ≡ x = ground (arith, contains-add visiting id x, h, c, eq_iff id x) in
      subst (λ z. Reaches g z d) same (direct ds known member)
]

visit_cyclic :
    (n : ℕ) (g : Graph) (visiting : List String) (id : String) (v : List String)
    → ((x : String) → contains visiting x ≡ true → Reaches g x id)
    → visit n g visiting id v ≡ Search.cyclic
    → (x : String) × Reaches g x x
unfolding visit
visit_cyclic zero g visiting id v way h = cc
visit_cyclic (suc n) g visiting id v way h =
    elim (visit_fails n g visiting id v Search.cyclic refl h) [
      | inl e ↦ (id, way id e.0)
      | inr (inl e) ↦ cc
      | inr (inr (ds, d, w, c, known, member, fails)) ↦
          visit_cyclic n g (add visiting id) d w (way_on g visiting id d ds way known member) fails
    ]

-- A reported cycle is one.
pub explore_cyclic :
    (g : Graph) (order : List String)
    → explore g order ≡ Search.cyclic
    → (x : String) × Reaches g x x
unfolding explore contains
explore_cyclic g order h =
    let (d, w, _, fails) =
      search_all_fails (visit (suc (length g)) g []) Search.cyclic order [] refl h in
    visit_cyclic (suc (length g)) g [] d w (λ x e. cc) fails

-- The place of a node in an order, counted from its end.
abbrev depth : List String → String → ℕ
depth [] x = 0
depth (y ∷ ys) x = if contains ys x then depth ys x else suc (length ys)

depth_le : (xs : List String) (x : String) → contains xs x ≡ true → depth xs x ≤ length xs
unfolding contains
depth_le [] x h = cc
depth_le (y ∷ ys) x h = ground (arith, depth_le ys x)

pub contains-all :
    (xs ds : List String) (y : String)
    → all (contains xs) ds ≡ true
    → contains ds y ≡ true
    → contains xs y ≡ true
unfolding contains
contains-all xs [] y h m = cc
contains-all xs (d ∷ ds) y h m = elim (Bool-cases (str_eq d y)) [
  | inl e ↦
      let same : d ≡ y = ground (arith, e, eq_iff d y) in
      subst (λ z. contains xs z ≡ true) same (ground (arith, h))
  | inr e ↦ contains-all xs ds y (ground (arith, h)) (ground (arith, m, e))
]

-- A dependency stands deeper in the order.
depth_step :
    (g : Graph) (xs : List String) (x y : String) (ds : List String)
    → IsOrder g xs
    → contains xs x ≡ true
    → get g x ≡ some ds
    → contains ds y ≡ true
    → (contains xs y ≡ true) × (depth xs y < depth xs x)
unfolding contains
depth_step g [] x y ds o c known member = cc
depth_step g (z ∷ zs) x y ds o c known member = elim (Bool-cases (contains zs x)) [
  | inl e ↦
      let below = depth_step g zs x y ds o.1 e known member in
      (ground (arith, below.0), ground (arith, below, e))
  | inr e ↦
      let (es, known', has) = o.0 in
      let same : z ≡ x = ground (arith, c, e, eq_iff z x) in
      let listed : es ≡ ds = ground (arith, known, subst (λ w. get g w ≡ some es) same known') in
      let inside =
        contains-all zs ds y (subst (λ l. all (contains zs) l ≡ true) listed has) member in
      (ground (arith, inside), ground (arith, inside, e, depth_le zs y inside))
]

deeper :
    (g : Graph) (xs : List String) {x y : String}
    → IsOrder g xs
    → contains xs x ≡ true
    → Reaches g x y
    → (contains xs y ≡ true) × (depth xs y < depth xs x)
deeper g xs {x} {y} o c (direct ds known member) = depth_step g xs x y ds o c known member
deeper g xs {x} {y = z} o c (further {y = y} ds r known member) =
    let (inside, lower) = deeper g xs o c r in
    let (has, below) = depth_step g xs y z ds o inside known member in
    (has, omega (arith, lower, below))

-- No node of an order reaches itself.
pub order_acyclic :
    (g : Graph) (xs : List String) (x : String)
    → IsOrder g xs
    → contains xs x ≡ true
    → ¬ Reaches g x x
order_acyclic g xs x o c r = omega (arith, (deeper g xs o c r).1)
