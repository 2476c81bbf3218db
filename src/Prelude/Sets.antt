-- ===== src/Prelude/Sets.antt =====
-- Python's `set` of texts, as a list without order that matters.
use Prim.Native.String.{String}
use mathlib.Core.Path.{◌≡◌}
use mathlib.Core.Bool.{Bool, false, ◌||◌, ◌&&◌, not}
use mathlib.Core.List.{List, [], ◌∷◌}
use native.Mathlib.Omega.{arith}
use text.Mathlib.Text.{◌==◌}
use text.Mathlib.TextEquality.{eq_iff}
use skail.Prelude.Tests.{if◌then◌else◌}

-- `x in xs`
unfoldable pub contains : List String → String → Bool
contains [] x = false
contains (y ∷ xs) x = y == x || contains xs x

-- `xs.add(x)`
unfoldable pub add : List String → String → List String
add xs x = if contains xs x then xs else x ∷ xs

-- `xs.discard(x)`
unfoldable pub discard : List String → String → List String
discard [] x = []
discard (y ∷ xs) x = let rest = discard xs x in if y == x then rest else y ∷ rest

-- `len(set(xs)) != len(xs)`
unfoldable pub has_duplicate : List String → Bool
has_duplicate [] = false
has_duplicate (x ∷ xs) = contains xs x || has_duplicate xs

pub contains-add :
    (xs : List String) (x y : String) → contains (add xs x) y ≡ (x == y || contains xs y)
unfolding add contains
contains-add xs x y = ground (arith, eq_iff x y, transfer)
  where
    transfer : x ≡ y → contains xs x ≡ contains xs y
    transfer e = cc

pub contains-discard :
    (xs : List String) (x y : String) → contains (discard xs x) y ≡ (not (x == y) && contains xs y)
unfolding contains discard
contains-discard [] x y = ground arith
contains-discard (z ∷ xs) x y =
    ground (arith, contains-discard xs x y, eq_iff x y, eq_iff z x, eq_iff z y)
