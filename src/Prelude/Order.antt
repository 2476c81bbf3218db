-- ===== src/Prelude/Order.antt =====
-- Python's `<` on tuples, texts and signed numbers, with `sorted` and `min` by such a key.
use Prim.Native.Char.{code}
use Prim.Native.String.{String}
use mathlib.Core.Path.{◌≡◌, refl, sym, subst}
use mathlib.Core.Logic.{inl, inr}
use mathlib.Core.Bool.{Bool, true, false}
use mathlib.Core.List.{List, [], ◌∷◌, Memᴰ}
use native.Mathlib.Omega.{arith}
use skail.Prelude.Tests.{if◌then◌else◌, Bool-cases}
use skail.Prelude.Lists.{All, keep, length, Mem-cases}
use skail.Prelude.Int.{ℤ, pos, ltb_ℤ}

-- A test that may stand for `<`: `not (b < a)` is transitive, and the test asymmetric.
pub record IsOrder {ℓ} {A : Type ℓ} (lt : A → A → Bool) : Type ℓ where
  pub asym : (a b : A) → lt a b ≡ true → lt b a ≡ false
  pub le_trans : (a b c : A) → lt b a ≡ false → lt c b ≡ false → lt c a ≡ false

pub ltb_ℤ-IsOrder : IsOrder ltb_ℤ
ltb_ℤ-IsOrder = record { asym = λ a b h. ground arith; le_trans = λ a b c h k. ground arith }

module _ {ℓ} {A : Type ℓ} (lt : A → A → Bool) where
  -- `a < b` on tuples and texts: the first difference decides
  unfoldable pub lex : List A → List A → Bool
  lex [] [] = false
  lex [] (b ∷ bs) = true
  lex (a ∷ as') [] = false
  lex (a ∷ as') (b ∷ bs) =
      let rest = lex as' bs in if lt a b then true else if lt b a then false else rest

  lex_asym : IsOrder lt → (a b : List A) → lex a b ≡ true → lex b a ≡ false
  unfolding lex
  lex_asym o [] [] h = cc
  lex_asym o [] (b ∷ bs) h = refl
  lex_asym o (a ∷ as') [] h = cc
  lex_asym o (a ∷ as') (b ∷ bs) h = ground (arith, o.asym a b, o.asym b a, lex_asym o as' bs)

  lex_le_trans : IsOrder lt → (a b c : List A) → lex b a ≡ false → lex c b ≡ false → lex c a ≡ false
  unfolding lex
  lex_le_trans o [] [] [] h k = refl
  lex_le_trans o [] [] (z ∷ zs) h k = refl
  lex_le_trans o [] (y ∷ ys) [] h k = refl
  lex_le_trans o [] (y ∷ ys) (z ∷ zs) h k = refl
  lex_le_trans o (x ∷ xs) [] c h k = cc
  lex_le_trans o (x ∷ xs) (y ∷ ys) [] h k = cc
  lex_le_trans o (x ∷ xs) (y ∷ ys) (z ∷ zs) h k = ground (
    arith,
    lex_le_trans o xs ys zs,
    o.asym x y,
    o.asym y z,
    o.asym x z,
    o.asym z x,
    o.le_trans x y z,
    o.le_trans y z x,
    o.le_trans z x y,
    o.le_trans z y x,
  )

  pub lex-IsOrder : IsOrder lt → IsOrder lex
  lex-IsOrder o = record { asym = lex_asym o; le_trans = lex_le_trans o }

  -- `min`: the first of the least elements
  unfoldable pub least : A → List A → A
  least best [] = best
  least best (x ∷ xs) = least (if lt x best then x else best) xs

  pub least-mem : (x : A) (xs : List A) → Memᴰ (least x xs) (x ∷ xs)
  unfolding least
  least-mem x [] = Memᴰ.head refl
  least-mem x (y ∷ ys) = elim (Bool-cases (lt y x)) [
    | inl e ↦ rw e (Memᴰ.tail (least-mem y ys))
    | inr e ↦ rw e (skip (least-mem x ys))
  ]
    where
      skip : {z : A} → Memᴰ z (x ∷ ys) → Memᴰ z (x ∷ y ∷ ys)
      skip (Memᴰ.head e) = Memᴰ.head e
      skip (Memᴰ.tail m) = Memᴰ.tail (Memᴰ.tail m)

  least_below : IsOrder lt → (x : A) (xs : List A) → lt x (least x xs) ≡ false
  unfolding least
  least_below o x [] = elim (Bool-cases (lt x x)) [ inl e ↦ o.asym x x e | inr e ↦ e ]
  least_below o x (y ∷ ys) = elim (Bool-cases (lt y x)) [
    | inl e ↦ rw e (o.le_trans (least y ys) y x (least_below o y ys) (o.asym y x e))
    | inr e ↦ rw e (least_below o x ys)
  ]

  least_rest : IsOrder lt → (x : A) (xs : List A) → All (λ y. lt y (least x xs) ≡ false) xs
  unfolding least
  least_rest o x [] = tt
  least_rest o x (y ∷ ys) = elim (Bool-cases (lt y x)) [
    | inl e ↦ moved (least y ys) (rw e refl) (least_below o y ys, least_rest o y ys)
    | inr e ↦
        moved (least x ys) (rw e refl)
          (o.le_trans (least x ys) x y (least_below o x ys) e, least_rest o x ys)
  ]
    where
      moved :
          (m : A)
          → least x (y ∷ ys) ≡ m
          → All (λ z. lt z m ≡ false) (y ∷ ys)
          → All (λ z. lt z (least x (y ∷ ys)) ≡ false) (y ∷ ys)
      moved m e all = subst (λ n. All (λ z. lt z n ≡ false) (y ∷ ys)) (sym e) all

  pub least-All : IsOrder lt → (x : A) (xs : List A) → All (λ y. lt y (least x xs) ≡ false) (x ∷ xs)
  least-All o x xs = (least_below o x xs, least_rest o x xs)

  -- `sorted`, which is stable
  unfoldable pub insert : A → List A → List A
  insert x [] = x ∷ []
  insert x (y ∷ ys) = let rest = insert x ys in if lt y x then y ∷ rest else x ∷ y ∷ ys

  unfoldable pub sorted : List A → List A
  unfolding insert
  sorted [] = []
  sorted (x ∷ xs) = insert x (sorted xs)

  Mem-insert : {z : A} (x : A) (xs : List A) → Memᴰ z (insert x xs) → Memᴰ z (x ∷ xs)
  unfolding insert
  Mem-insert x [] m = m
  Mem-insert x (y ∷ ys) m = elim (Bool-cases (lt y x)) [
    | inl e ↦
        Mem-cases (λ same. Memᴰ.tail (Memᴰ.head same))
          (λ k. Mem-cases Memᴰ.head (λ n. Memᴰ.tail (Memᴰ.tail n)) (Mem-insert x ys k)) (rw e at m)
    | inr e ↦ rw e at m
  ]

  pub Mem-sorted : {z : A} (xs : List A) → Memᴰ z (sorted xs) → Memᴰ z xs
  unfolding sorted
  Mem-sorted [] m = m
  Mem-sorted (x ∷ xs) m =
      Mem-cases Memᴰ.head (λ k. Memᴰ.tail (Mem-sorted xs k)) (Mem-insert x (sorted xs) m)

  All-insert {κ} : (P : A → Type κ) (x : A) (xs : List A) → All P (insert x xs) → P x × All P xs
  unfolding insert
  All-insert P x [] h = h
  All-insert P x (y ∷ ys) h = elim (Bool-cases (lt y x)) [
    | inl e ↦ let g = rw e at h in let (px, rest) = All-insert P x ys g.1 in (px, (g.0, rest))
    | inr e ↦ rw e at h
  ]

  pub All-sorted {κ} : (P : A → Type κ) (xs : List A) → All P (sorted xs) → All P xs
  unfolding sorted
  All-sorted P [] h = h
  All-sorted P (x ∷ xs) h =
      let (px, rest) = All-insert P x (sorted xs) h in (px, All-sorted P xs rest)

  length-keep-insert :
      (p : A → Bool) (x : A) (xs : List A)
      → length (keep p (insert x xs)) ≡ length (keep p (x ∷ xs))
  unfolding insert
  length-keep-insert p x [] = refl
  length-keep-insert p x (y ∷ ys) = ground (arith, length-keep-insert p x ys)

  pub length-keep-sorted :
      (p : A → Bool) (xs : List A) → length (keep p (sorted xs)) ≡ length (keep p xs)
  unfolding sorted
  length-keep-sorted p [] = refl
  length-keep-sorted p (x ∷ xs) =
      ground (arith, length-keep-insert p x (sorted xs), length-keep-sorted p xs)

-- Tuples of numbers and texts.
abbrev pub codes : String → List ℤ
codes String.[] = []
codes (String.◌∷◌ c s) = pos (code c) ∷ codes s

abbrev pub tuple_lt : List (List ℤ) → List (List ℤ) → Bool
tuple_lt = lex (lex ltb_ℤ)

pub tuple_lt-IsOrder : IsOrder tuple_lt
tuple_lt-IsOrder = lex-IsOrder (lex ltb_ℤ) (lex-IsOrder ltb_ℤ ltb_ℤ-IsOrder)

-- `<` on the keys that a function gives.
abbrev pub by_key {ℓ κ} : {A : Type ℓ} {K : Type κ} → (K → K → Bool) → (A → K) → A → A → Bool
by_key lt key a b = lt (key a) (key b)

pub by_key-IsOrder {ℓ κ} :
    {A : Type ℓ} {K : Type κ} (lt : K → K → Bool) (key : A → K)
    → IsOrder lt
    → IsOrder (by_key lt key)
by_key-IsOrder lt key o = record {
  asym = λ a b h. o.asym (key a) (key b) h;
  le_trans = λ a b c h k. o.le_trans (key a) (key b) (key c) h k;
}
