-- ===== src/Domain/Graph.antt =====
-- The depth-first search for a cycle of dependencies that src/skail/domain/plans.py (`visit` in
-- `validate_graph`) and src/skail/runtime/task_registry.py (`_has_dependency_cycle`) share. A graph
-- is a `dict` from a node to its dependencies.
pub mod Orders
pub mod Cycles
pub mod Fuel
pub mod Decision
use skail.Prelude.{
  ℕ, zero, suc, String, Bool, true, false, Option, none, some, List, [], ◌∷◌, if◌then◌else◌, length,
}
use skail.Prelude.Dict.{Dict, get}
use skail.Prelude.Sets.{contains, add}

abbrev pub Graph : Type 0
Graph = Dict (List String)

-- How a search ends: with a cycle, with a node that is no key of the `dict`, without fuel, or with
-- the nodes visited so far.
pub data Search : Type 0 where
  cyclic missing exhausted : Search
  done : List String → Search

-- What follows a visit that found no cycle.
abbrev pub and_then : Search → (List String → Search) → Search
and_then (Search.done visited) next = next visited
and_then Search.cyclic next = Search.cyclic
and_then Search.missing next = Search.missing
and_then Search.exhausted next = Search.exhausted

-- The loop over the dependencies, where `rest` visits one.
unfoldable pub search_all : (String → List String → Search) → List String → List String → Search
search_all rest [] visited = Search.done visited
search_all rest (d ∷ ds) visited = and_then (rest d visited) (search_all rest ds)

-- The dependencies of a node that is a key.
abbrev pub descend : Option (List String) → (List String → Search) → Search
descend none next = Search.missing
descend (some ds) next = next ds

-- `visiting` is the way from the root: the node is taken off it when its visit ends, so that the
-- caller's set is again what it was.
unfoldable pub visit : ℕ → Graph → List String → String → List String → Search
visit zero g visiting id visited = Search.exhausted
visit (suc n) g visiting id visited =
    if contains visiting id
    then Search.cyclic
    else if contains visited id
    then Search.done visited
    else and_then (descend (get g id) (λ ds. search_all (visit n g (add visiting id)) ds visited))
        (λ visited'. Search.done (add visited' id))

-- Each deeper call has one more node of the graph on its way.
unfoldable pub explore : Graph → List String → Search
explore g order = search_all (visit (suc (length g)) g []) order []
