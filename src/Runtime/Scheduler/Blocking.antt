-- ===== src/Runtime/Scheduler/Blocking.antt =====
-- `_block_dependents` blocks exactly the transitive dependents, and its fuel is enough.
use mathlib.Core.List.{Memᴰ}
use skail.Prelude.{
  ℕ, zero, suc, ◌+◌, ◌<◌, String, ◌≡◌, ◌⊎◌, ◌↔◌, inl, inr, refl, true, List, [], ◌∷◌, eq_iff,
  eq_refl, arith, length, Bool-cases, subst,
}
use skail.Prelude.Dict.{Dict, has, put, has-put}
use skail.Prelude.Sets.{contains}
use skail.Runtime.Scheduler.State.{ScheduledChild, Reason, has_child}
use skail.Runtime.Scheduler.Operations.{block_over, block_dependents}

-- `c` waits for `task_id`, through `n` others.
pub data Dependent (cs : List ScheduledChild) : String → ℕ → ScheduledChild → Type 0 where
  direct :
      {t : String} (c : ScheduledChild)
      → Memᴰ c cs
      → contains c.depends_on t ≡ true
      → Dependent cs t zero c
  through :
      {t : String} {n : ℕ} {c : ScheduledChild} (d : ScheduledChild)
      → Memᴰ d cs
      → contains d.depends_on t ≡ true
      → Dependent cs d.task_id n c
      → Dependent cs t (suc n) c

module _ (rest : String → Dict Reason → Dict Reason) (reason : Reason)
    (grows : (t x : String) (b : Dict Reason) → has b x ≡ true → has (rest t b) x ≡ true) where
  block_over_grows :
      (t x : String) (cs : List ScheduledChild) (b : Dict Reason)
      → has b x ≡ true
      → has (block_over rest reason t cs b) x ≡ true
  unfolding block_over
  block_over_grows t x [] b h = h
  block_over_grows t x (c ∷ cs) b h = elim (Bool-cases (contains c.depends_on t)) [
    | inl waits ↦ rw waits (
        block_over_grows t x cs _
          (grows c.task_id x _ (ground (arith, has-put reason c.task_id x b))))
    | inr free ↦ rw free (block_over_grows t x cs b h)
  ]

  -- A direct dependent is blocked, and what its own turn blocks stays blocked.
  block_over_direct :
      (t x : String) (c : ScheduledChild) (cs : List ScheduledChild) (b : Dict Reason)
      → Memᴰ c cs
      → contains c.depends_on t ≡ true
      → ((b' : Dict Reason) → has (rest c.task_id (put b' c.task_id reason)) x ≡ true)
      → has (block_over rest reason t cs b) x ≡ true
  unfolding block_over
  block_over_direct t x c [] b m waits done = elim m [ ]
  block_over_direct t x c (d ∷ cs) b (Memᴰ.head e) waits done =
      let waits' = subst (λ (y : ScheduledChild). contains y.depends_on t ≡ true) e waits in
      rw waits' (
        block_over_grows t x cs _ (
          subst (λ (y : ScheduledChild). has (rest y.task_id (put b y.task_id reason)) x ≡ true) e
            (done b)))
  block_over_direct t x c (d ∷ cs) b (Memᴰ.tail m) waits done =
      block_over_direct t x c cs _ m waits done

-- `x` is a transitive dependent of `t`.
abbrev pub Depends : List ScheduledChild → String → String → Type 0
Depends cs t x = (k : ℕ) × (e : ScheduledChild) × Dependent cs t k e × (e.task_id ≡ x)

module _ (cs : List ScheduledChild) (reason : Reason) where
  pub block_dependents_grows :
      (n : ℕ) (t x : String) (b : Dict Reason)
      → has b x ≡ true
      → has (block_dependents n cs reason t b) x ≡ true
  unfolding block_dependents
  block_dependents_grows zero t x b h = h
  block_dependents_grows (suc n) t x b h =
      block_over_grows (block_dependents n cs reason) reason (block_dependents_grows n) t x cs b h

  -- With fuel above the length of the chain the dependent is blocked.
  blocks-Dependent :
      (n k : ℕ) (t : String) (c : ScheduledChild) (b : Dict Reason)
      → Dependent cs t k c
      → k < n
      → has (block_dependents n cs reason t b) c.task_id ≡ true
  unfolding block_dependents
  blocks-Dependent zero k t c b d h = elim h [ ]
  blocks-Dependent (suc n) zero t _ b (direct c m waits) h =
      block_over_direct (block_dependents n cs reason) reason (block_dependents_grows n) t c.task_id
        c cs b m waits
        (λ b'. block_dependents_grows n c.task_id c.task_id _ (rw (has-put, eq_refl)))
  blocks-Dependent (suc n) (suc k) t c b (through d m waits r) h =
      block_over_direct (block_dependents n cs reason) reason (block_dependents_grows n) t c.task_id
        d cs b m waits (λ b'. blocks-Dependent n k d.task_id c _ r (omega arith))

  has-put-cases :
      (b : Dict Reason) (id x : String)
      → has (put b id reason) x ≡ true
      → (id ≡ x) ⊎ (has b x ≡ true)
  has-put-cases b id x h = ground (arith, has-put reason id x b, eq_iff id x)

  over_sound :
      (rest : String → Dict Reason → Dict Reason) (t x : String) (ds : List ScheduledChild)
      (b : Dict Reason)
      → ((c : ScheduledChild) → Memᴰ c ds → Memᴰ c cs)
      → ((c : ScheduledChild) (b' : Dict Reason)
          → Memᴰ c ds
          → contains c.depends_on t ≡ true
          → has (rest c.task_id b') x ≡ true
          → (has b' x ≡ true) ⊎ Depends cs t x)
      → has (block_over rest reason t ds b) x ≡ true
      → (has b x ≡ true) ⊎ Depends cs t x
  unfolding block_over
  over_sound rest t x [] b sub step h = inl h
  over_sound rest t x (c ∷ ds) b sub step h = elim (Bool-cases (contains c.depends_on t)) [
    | inl waits ↦
        elim (over_sound rest t x ds _ (λ d m. sub d (Memᴰ.tail m))
          (λ d b' m. step d b' (Memᴰ.tail m)) (rw (waits, block_over) at h)) [
            | inl inner ↦ elim (step c _ (Memᴰ.head refl) waits inner) [
              | inl new ↦ elim (has-put-cases b c.task_id x new) [
                | inl here ↦ inr (zero, c, direct c (sub c (Memᴰ.head refl)) waits, here)
                | inr old ↦ inl old
              ]
              | inr d ↦ inr d
            ]
            | inr d ↦ inr d
          ]
    | inr free ↦
        over_sound rest t x ds b (λ d m. sub d (Memᴰ.tail m)) (λ d b' m. step d b' (Memᴰ.tail m))
          (rw (free, block_over) at h)
  ]

  blocked-Depends :
      (n : ℕ) (t x : String) (b : Dict Reason)
      → has (block_dependents n cs reason t b) x ≡ true
      → (has b x ≡ true) ⊎ Depends cs t x
  unfolding block_dependents
  blocked-Depends zero t x b h = inl h
  blocked-Depends (suc n) t x b h =
      over_sound (block_dependents n cs reason) t x cs b (λ d m. m)
        (λ d b' m waits inner. elim (blocked-Depends n d.task_id x b' inner) [
          | inl old ↦ inl old
          | inr (k, e, r, named) ↦ inr (suc k, e, through d m waits r, named)
        ])
        h

-- What `submit` keeps: dependencies are known, and were created before.
pub record IsLayered (cs : List ScheduledChild) : Type 0 where
  pub early : (c : ScheduledChild) → Memᴰ c cs → c.creation_order < length cs
  pub upward :
      (c d : ScheduledChild)
      → Memᴰ c cs
      → Memᴰ d cs
      → contains c.depends_on d.task_id ≡ true
      → d.creation_order < c.creation_order
  pub known :
      (c : ScheduledChild) (x : String)
      → Memᴰ c cs
      → contains c.depends_on x ≡ true
      → has_child cs x ≡ true

pub dependent_listed :
    {cs : List ScheduledChild} {t : String} {n : ℕ} {c : ScheduledChild}
    → Dependent cs t n c
    → Memᴰ c cs
dependent_listed (direct c m waits) = m
dependent_listed (through d m waits r) = dependent_listed r

module _ {cs : List ScheduledChild} (layered : IsLayered cs) where
  -- Creation orders climb along a chain.
  climbs :
      {n : ℕ} {c : ScheduledChild} (a : ScheduledChild)
      → Memᴰ a cs
      → Dependent cs a.task_id n c
      → a.creation_order + n < c.creation_order
  climbs a ma (direct c m waits) = omega (arith, layered.upward c a m ma waits)
  climbs a ma (through d m waits r) = omega (arith, layered.upward d a m ma waits, climbs d m r)

  chain_short : {t : String} {n : ℕ} {c : ScheduledChild} → Dependent cs t n c → n < length cs
  chain_short (direct c m waits) = omega (arith, layered.early c m)
  chain_short (through d m waits r) =
      omega (arith, climbs d m r, layered.early _ (dependent_listed r))

  -- The identities that are blocked behind `t` are those that were, and the transitive dependents.
  pub block_dependents_exact :
      (reason : Reason) (t x : String) (b : Dict Reason)
      → (has (block_dependents (length cs) cs reason t b) x ≡ true)
        ↔ ((has b x ≡ true) ⊎ Depends cs t x)
  block_dependents_exact reason t x b = (blocked-Depends cs reason (length cs) t x b, back)
    where
      back :
          (has b x ≡ true) ⊎ Depends cs t x
          → has (block_dependents (length cs) cs reason t b) x ≡ true
      back (inl old) = block_dependents_grows cs reason (length cs) t x b old
      back (inr (k, e, r, named)) =
          subst (λ y. has (block_dependents (length cs) cs reason t b) y ≡ true) named
            (blocks-Dependent cs reason (length cs) k t e b r (chain_short r))
