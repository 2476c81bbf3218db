-- ===== src/Domain/Graph/Orders.antt =====
-- A search that ends without a cycle has found an order of the nodes.
use skail.Prelude.{
  ℕ, zero, suc, String, ◌≡◌, refl, inl, inr, true, Option, none, some, List, [], ◌∷◌, arith, all,
  length, eq_refl, Bool-cases, subst,
}
use skail.Prelude.Dict.{get}
use skail.Prelude.Sets.{contains, add, contains-add}
use skail.Domain.Graph.{Graph, Search, and_then, descend, search_all, visit, explore}

-- Each node stands before, in the text after, all its dependencies.
abbrev pub IsOrder : Graph → List String → Type 0
IsOrder g [] = Unit
IsOrder g (x ∷ xs) =
    ((ds : List String) × (get g x ≡ some ds) × (all (contains xs) ds ≡ true)) × IsOrder g xs

-- `v'` is an order, and has what `v` has.
pub record Extends (g : Graph) (v v' : List String) : Type 0 where
  pub order : IsOrder g v'
  pub grows : (y : String) → contains v y ≡ true → contains v' y ≡ true

all-grows :
    (v v' ds : List String)
    → ((y : String) → contains v y ≡ true → contains v' y ≡ true)
    → all (contains v) ds ≡ true
    → all (contains v') ds ≡ true
all-grows v v' [] g h = refl
all-grows v v' (d ∷ ds) g h = ground (arith, h, g d, all-grows v v' ds g)

and_then-eq-done :
    (s : Search) (next : List String → Search) (v : List String)
    → and_then s next ≡ Search.done v
    → (w : List String) × (s ≡ Search.done w) × (next w ≡ Search.done v)
and_then-eq-done (Search.done w) next v h = (w, refl, h)
and_then-eq-done Search.cyclic next v h = cc
and_then-eq-done Search.missing next v h = cc
and_then-eq-done Search.exhausted next v h = cc

done-inj : (v w : List String) → Search.done v ≡ Search.done w → v ≡ w
done-inj v w h = ground (arith, h)

-- A visit keeps the order, and has its node visited at its end.
abbrev Visits : Graph → (String → List String → Search) → Type 0
Visits g rest =
    (d : String) (v v' : List String)
    → IsOrder g v
    → rest d v ≡ Search.done v'
    → Extends g v v' × (contains v' d ≡ true)

search_all-Extends :
    (g : Graph) (rest : String → List String → Search) (step : Visits g rest)
    (ds v v' : List String)
    → IsOrder g v
    → search_all rest ds v ≡ Search.done v'
    → Extends g v v' × (all (contains v') ds ≡ true)
unfolding search_all
search_all-Extends g rest step [] v v' o h =
    subst (λ w. Extends g v w × (true ≡ true)) (done-inj v v' h)
      (record { order = o; grows = λ y m. m }, refl)
search_all-Extends g rest step (d ∷ ds) v v' o h =
    let (w, first, later) = and_then-eq-done (rest d v) (search_all rest ds) v' h in
    let (e, has) = step d v w o first in
    let (f, all_has) = search_all-Extends g rest step ds w v' e.order later in
    (
      record { order = f.order; grows = λ y m. f.grows y (e.grows y m) },
      rw (f.grows d has, all_has) refl,
    )

descend-eq-done :
    (o : Option (List String)) (next : List String → Search) (v : List String)
    → descend o next ≡ Search.done v
    → (ds : List String) × (o ≡ some ds) × (next ds ≡ Search.done v)
descend-eq-done none next v h = cc
descend-eq-done (some ds) next v h = (ds, refl, h)

add-Extends :
    (g : Graph) (id : String) (ds v w : List String)
    → get g id ≡ some ds
    → Extends g v w
    → all (contains w) ds ≡ true
    → Extends g v (add w id) × (contains (add w id) id ≡ true)
unfolding add
add-Extends g id ds v w e x h = elim (Bool-cases (contains w id)) [
  | inl c ↦ rw c (x, c)
  | inr c ↦ rw c (
    record {
      order = ((ds, e, h), x.order);
      grows = λ y m. ground (arith, contains-add w id y, x.grows y m, c);
    },
    ground (arith, contains-add w id id, c, eq_refl id),
  )
]

visit-Visits : (n : ℕ) (g : Graph) (visiting : List String) → Visits g (visit n g visiting)
unfolding visit
visit-Visits zero g visiting d v v' o h = cc
visit-Visits (suc n) g visiting d v v' o h = elim (Bool-cases (contains visiting d)) [
  | inl c ↦ let k = rw c at h in cc
  | inr c ↦ elim (Bool-cases (contains v d)) [
    | inl s ↦
        let k = done-inj v v' (rw (c, s) at h) in
        subst (λ w. Extends g v w × (contains w d ≡ true)) k
          (record { order = o; grows = λ y m. m }, s)
    | inr s ↦
        let (w, found, added) = and_then-eq-done _ _ v' (rw (c, s) at h) in
        let (ds, known, searched) = descend-eq-done (get g d) _ w found in
        let (x, has) =
          search_all-Extends g _ (visit-Visits n g (add visiting d)) ds v w o searched in
        subst (λ u. Extends g v u × (contains u d ≡ true)) (done-inj _ v' added)
          (add-Extends g d ds v w known x has)
  ]
]

-- A search without a cycle has ordered all nodes that it started from.
pub explore_orders :
    (g : Graph) (order v : List String)
    → explore g order ≡ Search.done v
    → IsOrder g v × (all (contains v) order ≡ true)
unfolding explore
explore_orders g order v h =
    let (x, has) = search_all-Extends g _ (visit-Visits (suc (length g)) g []) order [] v tt h in
    (x.order, has)
