-- ===== src/Prelude/Dict.antt =====
-- Python's `dict` with text keys: pairs in insertion order, where a write to a present key keeps
-- its place.
use Prim.Native.Nat.{ℕ, ◌+◌}
use Prim.Native.String.{String}
use mathlib.Core.Path.{◌≡◌, refl}
use mathlib.Core.Bool.{Bool, true, false}
use mathlib.Core.Option.{Option, none, some}
use mathlib.Core.List.{List, [], ◌∷◌}
use native.Mathlib.Omega.{arith}
use text.Mathlib.Text.{◌==◌}
use text.Mathlib.TextEquality.{eq_iff}
use skail.Prelude.Tests.{if◌then◌else◌}

abbrev pub Dict {ℓ} : Type ℓ → Type ℓ
Dict V = List (String × V)

module _ {ℓ} {V : Type ℓ} where
  -- `d.get(k)`
  unfoldable pub get : Dict V → String → Option V
  get [] k = none
  get ((j, v) ∷ d) k = if j == k then some v else get d k

  -- `k in d`
  abbrev pub is_some : Option V → Bool
  is_some none = false
  is_some (some v) = true

  abbrev pub has : Dict V → String → Bool
  has d k = is_some (get d k)

  -- `d[k] = v`
  unfoldable pub put : Dict V → String → V → Dict V
  put [] k v = (k, v) ∷ []
  put ((j, w) ∷ d) k v = if j == k then (j, v) ∷ d else (j, w) ∷ put d k v

  unfoldable pub values : Dict V → List V
  values [] = []
  values ((k, v) ∷ d) = v ∷ values d

  unfoldable pub keys : Dict V → List String
  keys [] = []
  keys ((k, v) ∷ d) = k ∷ keys d

  -- A written key reads as what was written last, and every other key as before.
  pub get-put :
      (new : V) (written read : String) (held : Dict V)
      → get (put held written new) read ≡ (if written == read then some new else get held read)
  unfolding get put
  get-put new written read [] = refl
  get-put new written read ((key, old) ∷ rest) = ground (
    arith,
    get-put new written read rest,
    eq_iff written read,
    eq_iff key written,
    eq_iff key read,
  )

  pub has-put :
      (new : V) (written read : String) (held : Dict V)
      → has (put held written new) read ≡ (if written == read then true else has held read)
  has-put new written read held = ground (arith, get-put new written read held)

-- `counts[key]` and `counts[key] += 1` of a `Counter`
abbrev default_zero : Option ℕ → ℕ
default_zero none = 0
default_zero (some n) = n

abbrev pub count_of : Dict ℕ → String → ℕ
count_of d k = default_zero (get d k)

unfoldable pub bump : Dict ℕ → String → Dict ℕ
bump d k = put d k (count_of d k + 1)
