-- ===== src/Domain/Graph/Fuel.antt =====
-- The search neither runs out of fuel nor meets an unknown node, so that it decides.
use skail.Prelude.{
  ℕ, zero, suc, ◌<◌, ◌≤◌, String, ◌≡◌, refl, ◌⊎◌, inl, inr, true, false, not, some, List, [], ◌∷◌,
  arith, all, length, keep, str_eq, eq_iff, Bool-cases, subst,
}
use skail.Prelude.Dict.{get, has, keys}
use skail.Prelude.Sets.{contains, add, contains-add}
use skail.Domain.Graph.{Graph, Search, visit, explore}
use skail.Domain.Graph.Orders.{IsOrder, explore_orders}
use skail.Domain.Graph.Cycles.{Reaches, search_all_fails, visit_fails, explore_cyclic}

-- The nodes that are not on the way.
abbrev left_over : Graph → List String → ℕ
left_over g visiting = length (keep (λ k. not (contains visiting k)) (keys g))

fewer_le :
    (visiting : List String) (id : String) (ks : List String)
    → length (keep (λ k. not (contains (add visiting id) k)) ks)
      ≤ length (keep (λ k. not (contains visiting k)) ks)
fewer_le visiting id [] = omega arith
fewer_le visiting id (k ∷ ks) = ground (arith, fewer_le visiting id ks, contains-add visiting id k)

fewer :
    (visiting : List String) (id : String) (ks : List String)
    → contains visiting id ≡ false
    → contains ks id ≡ true
    → length (keep (λ k. not (contains (add visiting id) k)) ks)
      < length (keep (λ k. not (contains visiting k)) ks)
unfolding contains
fewer visiting id [] c h = cc
fewer visiting id (k ∷ ks) c h = ground (
  arith,
  fewer_le visiting id ks,
  fewer visiting id ks,
  contains-add visiting id k,
  eq_iff k id,
  eq_iff id k,
  here,
)
  where
    here : id ≡ k → contains visiting k ≡ false
    here e = subst (λ z. contains visiting z ≡ false) e c

keys_known :
    (g : Graph) (id : String) (ds : List String) → get g id ≡ some ds → contains (keys g) id ≡ true
unfolding get keys contains
keys_known [] id ds h = cc
keys_known ((k, es) ∷ g) id ds h = ground (arith, keys_known g id ds, h, eq_iff k id)

visit_fuelled :
    (n : ℕ) (g : Graph) (visiting : List String) (id : String) (v : List String)
    → left_over g visiting < n
    → ¬ (visit n g visiting id v ≡ Search.exhausted)
visit_fuelled zero g visiting id v enough h = omega (arith, enough)
visit_fuelled (suc n) g visiting id v enough h =
    elim (visit_fails n g visiting id v Search.exhausted refl h) [
      | inl e ↦ cc
      | inr (inl e) ↦ cc
      | inr (inr (ds, d, w, c, known, member, fails)) ↦
          visit_fuelled n g (add visiting id) d w
            (omega (arith, enough, fewer visiting id (keys g) c (keys_known g id ds known))) fails
    ]

-- Every dependency is a key.
abbrev pub IsClosed : Graph → Type 0
IsClosed g =
    (x y : String) (ds : List String) → get g x ≡ some ds → contains ds y ≡ true → has g y ≡ true

visit_known :
    (n : ℕ) (g : Graph) (visiting : List String) (id : String) (v : List String)
    → IsClosed g
    → has g id ≡ true
    → ¬ (visit n g visiting id v ≡ Search.missing)
unfolding visit
visit_known zero g visiting id v closed k h = cc
visit_known (suc n) g visiting id v closed k h =
    elim (visit_fails n g visiting id v Search.missing refl h) [
      | inl e ↦ cc
      | inr (inl e) ↦ let f = rw e.0 at k in cc
      | inr (inr (ds, d, w, c, known, member, fails)) ↦
          visit_known n g (add visiting id) d w closed (closed id d ds known member) fails
    ]

keep_all : (ks : List String) → length (keep (λ k. not (contains [] k)) ks) ≡ length ks
unfolding contains
keep_all [] = refl
keep_all (k ∷ ks) = omega (arith, keep_all ks)

length-keys : (g : Graph) → length (keys g) ≡ length g
unfolding keys
length-keys [] = refl
length-keys ((k, ds) ∷ g) = omega (arith, length-keys g)

all_known :
    (g : Graph) (order : List String) (d : String)
    → all (has g) order ≡ true
    → contains order d ≡ true
    → has g d ≡ true
unfolding contains
all_known g [] d h m = cc
all_known g (x ∷ xs) d h m = elim (Bool-cases (str_eq x d)) [
  | inl e ↦
      let same : x ≡ d = ground (arith, e, eq_iff x d) in
      subst (λ z. has g z ≡ true) same (ground (arith, h))
  | inr e ↦ all_known g xs d (ground (arith, h)) (ground (arith, m, e))
]

explore_known :
    (g : Graph) (order : List String)
    → IsClosed g
    → all (has g) order ≡ true
    → ¬ (explore g order ≡ Search.missing)
unfolding explore
explore_known g order closed known h =
    let (d, w, member, fails) = search_all_fails _ Search.missing order [] refl h in
    visit_known (suc (length g)) g [] d w closed (all_known g order d known member) fails

explore_fuelled : (g : Graph) (order : List String) → ¬ (explore g order ≡ Search.exhausted)
unfolding explore
explore_fuelled g order h =
    let (d, w, member, fails) = search_all_fails _ Search.exhausted order [] refl h in
    visit_fuelled (suc (length g)) g [] d w (omega (arith, keep_all (keys g), length-keys g)) fails

-- In a graph whose dependencies are all nodes, the search finds a node that reaches itself, or ends
-- with an order of all the nodes that it starts from.
pub explore_decides :
    (g : Graph) (order : List String)
    → IsClosed g
    → all (has g) order ≡ true
    → ((explore g order ≡ Search.cyclic) × ((x : String) × Reaches g x x))
      ⊎ ((v : List String) × (explore g order ≡ Search.done v)
          × IsOrder g v
          × (all (contains v) order ≡ true))
explore_decides g order closed known = by_end (explore g order) refl
  where
    by_end :
        (s : Search)
        → explore g order ≡ s
        → ((explore g order ≡ Search.cyclic) × ((x : String) × Reaches g x x))
          ⊎ ((v : List String) × (explore g order ≡ Search.done v)
              × IsOrder g v
              × (all (contains v) order ≡ true))
    by_end (Search.done v) e = let (o, has) = explore_orders g order v e in inr (v, e, o, has)
    by_end Search.cyclic e = inl (e, explore_cyclic g order e)
    by_end Search.missing e = elim (explore_known g order closed known e) [ ]
    by_end Search.exhausted e = elim (explore_fuelled g order e) [ ]
