-- ===== src/Prelude/Lists.antt =====
-- Lists measured by native numbers, Boolean quantifiers that run, and predicates on all elements.
use Prim.Native.Nat.{ℕ, suc, ◌+◌, ◌≤◌}
use mathlib.Core.Path.{◌≡◌, refl}
use mathlib.Core.Logic.{◌↔◌, inl, inr}
use mathlib.Core.Bool.{Bool, true, false, ◌&&◌, ◌||◌}
use mathlib.Core.List.{List, [], ◌∷◌, ◌++◌, Memᴰ}
use native.Mathlib.Omega.{arith}
use skail.Prelude.Tests.{if◌then◌else◌, Bool-cases}

module _ {ℓ} {A : Type ℓ} where
  abbrev pub length : List A → ℕ
  length [] = 0
  length (x ∷ xs) = suc (length xs)

  -- `any(p(x) for x in xs)`
  abbrev pub any : (A → Bool) → List A → Bool
  any p [] = false
  any p (x ∷ xs) = p x || any p xs

  -- `all(p(x) for x in xs)`
  abbrev pub all : (A → Bool) → List A → Bool
  all p [] = true
  all p (x ∷ xs) = p x && all p xs

  -- `[x for x in xs if p(x)]`
  abbrev pub keep : (A → Bool) → List A → List A
  keep p [] = []
  keep p (x ∷ xs) = let rest = keep p xs in if p x then x ∷ rest else rest

  abbrev pub All {κ} : (A → Type κ) → List A → Type κ
  All P [] = Unit
  All P (x ∷ xs) = P x × All P xs

  pub all-All : (p : A → Bool) (xs : List A) → (all p xs ≡ true) ↔ All (λ x. p x ≡ true) xs
  all-All p [] = ((λ h. tt), (λ h. refl))
  all-All p (x ∷ xs) = (
    (λ h. (ground (arith, h), (all-All p xs).0 (ground (arith, h)))),
    (λ h. ground (arith, h.0, (all-All p xs).1 h.1)),
  )

  pub length-append : (xs ys : List A) → length (xs ++ ys) ≡ length xs + length ys
  length-append [] ys = omega arith
  length-append (x ∷ xs) ys = omega (arith, length-append xs ys)

  pub length-keep : (p : A → Bool) (xs : List A) → length (keep p xs) ≤ length xs
  length-keep p [] = omega arith
  length-keep p (x ∷ xs) = ground (arith, length-keep p xs)

  -- `sum(f(x) for x in xs if p(x))`
  abbrev pub sum_where : (A → ℕ) → (A → Bool) → List A → ℕ
  sum_where f p [] = 0
  sum_where f p (x ∷ xs) = (if p x then f x else 0) + sum_where f p xs

  pub All-keep {κ} :
      (P : A → Type κ) (p : A → Bool) (xs : List A)
      → All P (keep p xs) ↔ All (λ x. p x ≡ true → P x) xs
  All-keep P p [] = ((λ h. h), (λ h. h))
  All-keep P p (x ∷ xs) = elim (Bool-cases (p x)) [
    | inl e ↦
        rw e
          ((λ h. ((λ w. h.0), (All-keep P p xs).0 h.1)), (λ h. (h.0 refl, (All-keep P p xs).1 h.1)))
    | inr e ↦ rw e ((λ h. ((λ w. cc), (All-keep P p xs).0 h)), (λ h. (All-keep P p xs).1 h.1))
  ]

  -- A member of a list is its head or a member of the rest.
  pub Mem-cases {κ} :
      {B : Type κ} {z x : A} {xs : List A} → (z ≡ x → B) → (Memᴰ z xs → B) → Memᴰ z (x ∷ xs) → B
  Mem-cases f g (Memᴰ.head e) = f e
  Mem-cases f g (Memᴰ.tail m) = g m

  Mem-keep-later :
      {z : A} (p : A → Bool) (x : A) (xs : List A)
      → Memᴰ z xs × (p z ≡ true)
      → Memᴰ z (x ∷ xs) × (p z ≡ true)
  Mem-keep-later p x xs h = (Memᴰ.tail h.0, h.1)

  pub Mem-keep :
      {z : A} (p : A → Bool) (xs : List A) → Memᴰ z (keep p xs) → Memᴰ z xs × (p z ≡ true)
  Mem-keep p [] m = elim m [ ]
  Mem-keep p (x ∷ xs) m = elim (Bool-cases (p x)) [
    | inl e ↦
        Mem-cases (λ same. (Memᴰ.head same, rw same e))
          (λ n. Mem-keep-later p x xs (Mem-keep p xs n)) (rw e at m)
    | inr e ↦ Mem-keep-later p x xs (Mem-keep p xs (rw e at m))
  ]
