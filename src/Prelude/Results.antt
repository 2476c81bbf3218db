-- ===== src/Prelude/Results.antt =====
-- Exceptions as values: a call returns its result, or the error that it raises.
use mathlib.Core.Path.{◌≡◌, refl}
use mathlib.Core.Logic.{◌⊎◌, inl, inr}
use mathlib.Core.Bool.{Bool, true, false}

pub data Result {ℓ} (E : Type 0) (A : Type ℓ) : Type ℓ where
  err : E → Result E A
  ok : A → Result E A

-- `if b: raise e`
abbrev pub raise_if : {E : Type 0} → Bool → E → Result E (Unit {0})
raise_if b e = elim b [ true ↦ err e | false ↦ ok tt ]

pub Result-cases {ℓ} :
    {E : Type 0} {A : Type ℓ} (r : Result E A) → ((a : A) × (r ≡ ok a)) ⊎ ((e : E) × (r ≡ err e))
Result-cases (ok a) = inl (a, refl)
Result-cases (err e) = inr (e, refl)

infixl 5 ◌>>=◌ ◌>>◌
abbrev pub ◌>>=◌ {κ ℓ} :
    {E : Type 0} {B : Type κ} {A : Type ℓ} → Result E A → (A → Result E B) → Result E B
err raised >>= next = err raised
ok value >>= next = next value

abbrev pub ◌>>◌ {ℓ} : {E : Type 0} {B : Type ℓ} → Result E (Unit {0}) → Result E B → Result E B
err raised >> next = err raised
ok done >> next = next

-- What a chain that did not raise has done: its first call returned, and the rest then did.
pub returns_both {κ ℓ} :
    {E : Type 0} {B : Type κ} {A : Type ℓ} (rest : A → Result E B) (first : Result E A) {out : B}
    → (first >>= rest) ≡ ok out
    → (mid : A) × (rest mid ≡ ok out) × (first ≡ ok mid)
returns_both rest (err raised) e = cc
returns_both rest (ok value) e = (value, e, refl)

-- What a chain that did not raise has passed: a test, or a call without a result.
pub raise_if-passed {ℓ} :
    {E : Type 0} {B : Type ℓ} (b : Bool) (e : E) (rest : Result E B) {out : B}
    → (raise_if b e >> rest) ≡ ok out
    → (b ≡ false) × (rest ≡ ok out)
raise_if-passed true e rest h = cc
raise_if-passed false e rest h = (refl, h)

pub guard-passed {ℓ} :
    {E : Type 0} {B : Type ℓ} (guard : Result E (Unit {0})) (rest : Result E B) {out : B}
    → (guard >> rest) ≡ ok out
    → (guard ≡ ok tt) × (rest ≡ ok out)
guard-passed (err e) rest h = cc
guard-passed (ok tt) rest h = (refl, h)
