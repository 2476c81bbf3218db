-- ===== src/Domain/Graph/Decision.antt =====
-- The search as a test for cycles, for graphs that are built from a list of nodes.
use skail.Prelude.{
  String, ◌≡◌, refl, inl, inr, true, false, not, List, [], ◌∷◌, arith, all, any, str_eq, eq_iff,
  Bool-cases, subst,
}
use skail.Prelude.Dict.{has}
use skail.Prelude.Sets.{contains}
use skail.Domain.Graph.{Graph, Search, explore}
use skail.Domain.Graph.Orders.{explore_orders}
use skail.Domain.Graph.Cycles.{Reaches, order_acyclic, contains-all}
use skail.Domain.Graph.Fuel.{IsClosed, explore_decides}

abbrev pub IsAcyclic : Graph → Type 0
IsAcyclic g = (x : String) → ¬ Reaches g x x

abbrev pub Covers : Graph → List String → Type 0
Covers g order = (x : String) → has g x ≡ true → contains order x ≡ true

pub Reaches-known : (g : Graph) {x y : String} → Reaches g x y → has g x ≡ true
Reaches-known g (Reaches.direct ds known member) = rw known refl
Reaches-known g (Reaches.further ds r known member) = Reaches-known g r

pub done-IsAcyclic :
    (g : Graph) (order v : List String)
    → Covers g order
    → explore g order ≡ Search.done v
    → IsAcyclic g
done-IsAcyclic g order v covers e x r =
    let (o, inside) = explore_orders g order v e in
    order_acyclic g v x o (contains-all v order x inside (covers x (Reaches-known g r))) r

pub acyclic_done :
    (g : Graph) (order : List String)
    → IsClosed g
    → all (has g) order ≡ true
    → IsAcyclic g
    → (v : List String) × (explore g order ≡ Search.done v)
acyclic_done g order closed known acyclic = elim (explore_decides g order closed known) [
  | inl (e, cycle) ↦ elim (acyclic cycle.0 cycle.1) [ ]
  | inr ends ↦ (ends.0, ends.1)
]

-- The tests of the sources that every dependency is a node.
pub any_unknown :
    (g : Graph) (ds : List String) (y : String)
    → any (λ d. not (has g d)) ds ≡ false
    → contains ds y ≡ true
    → has g y ≡ true
unfolding contains
any_unknown g [] y h m = cc
any_unknown g (d ∷ ds) y h m = elim (Bool-cases (str_eq d y)) [
  | inl e ↦
      let same : d ≡ y = ground (arith, e, eq_iff d y) in
      subst (λ z. has g z ≡ true) same (ground (arith, h))
  | inr e ↦ any_unknown g ds y (ground (arith, h)) (ground (arith, m, e))
]
