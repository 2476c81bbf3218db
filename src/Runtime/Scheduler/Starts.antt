-- ===== src/Runtime/Scheduler/Starts.antt =====
-- Only a child that is ready is started.
use mathlib.Core.List.{Memᴰ}
use skail.Prelude.{
  ℕ, zero, suc, ◌-◌, String, ◌≡◌, inl, inr, refl, Bool, true, false, List, [], ◌∷◌, map, arith,
  keep, length, str_eq, eq_iff, Bool-cases, ok, all, subst, sym,
}
use skail.Prelude.Dict.{has}
use skail.Prelude.Sets.{contains}
use skail.Runtime.Scheduler.State.{
  ScheduledChild, Scheduler, is_candidate, comes_before, insert_child, sort_children,
  ready_children, ready,
}
use skail.Runtime.Scheduler.Operations.{try_start, started, is_within}
use skail.Runtime.Scheduler.Safety.{started_eq}

within_listed :
    (n : ℕ) (cs : List ScheduledChild) (x : String)
    → is_within n (map (λ c. c.task_id) cs) x ≡ true
    → (c : ScheduledChild) × Memᴰ c cs × (c.task_id ≡ x)
unfolding is_within
within_listed zero [] x h = cc
within_listed (suc n) [] x h = cc
within_listed zero (c ∷ cs) x h = cc
within_listed (suc n) (c ∷ cs) x h = elim (Bool-cases (str_eq c.task_id x)) [
  | inl here ↦ (c, Memᴰ.head refl, (eq_iff c.task_id x).0 here)
  | inr later ↦ let (d, m, e) = within_listed n cs x (ground arith) in (d, Memᴰ.tail m, e)
]

swapped :
    (cs rest : List ScheduledChild) (c d e : ScheduledChild)
    → (Memᴰ c rest → Memᴰ c (d ∷ cs))
    → Memᴰ c (e ∷ rest)
    → Memᴰ c (d ∷ (e ∷ cs))
swapped cs rest c d e go (Memᴰ.head p) = Memᴰ.tail (Memᴰ.head p)
swapped cs rest c d e go (Memᴰ.tail m) = widen cs c d e (go m)
  where
    widen :
        (l : List ScheduledChild) (a b f : ScheduledChild) → Memᴰ a (b ∷ l) → Memᴰ a (b ∷ (f ∷ l))
    widen l a b f (Memᴰ.head p) = Memᴰ.head p
    widen l a b f (Memᴰ.tail k) = Memᴰ.tail (Memᴰ.tail k)

under_head :
    (xs ys : List ScheduledChild) (c d : ScheduledChild)
    → (Memᴰ c xs → Memᴰ c ys)
    → Memᴰ c (d ∷ xs)
    → Memᴰ c (d ∷ ys)
under_head xs ys c d go (Memᴰ.head p) = Memᴰ.head p
under_head xs ys c d go (Memᴰ.tail m) = Memᴰ.tail (go m)

insert_listed :
    (c d : ScheduledChild) (cs : List ScheduledChild) → Memᴰ c (insert_child d cs) → Memᴰ c (d ∷ cs)
unfolding insert_child
insert_listed c d [] m = m
insert_listed c d (e ∷ cs) m = elim (Bool-cases (comes_before d e)) [
  | inl first ↦ rw (first, insert_child) at m
  | inr later ↦
      swapped cs (insert_child d cs) c d e (insert_listed c d cs) (rw (later, insert_child) at m)
]

sort_listed :
    (c : ScheduledChild) (cs : List ScheduledChild) → Memᴰ c (sort_children cs) → Memᴰ c cs
unfolding sort_children
sort_listed c [] m = m
sort_listed c (d ∷ cs) m =
    under_head (sort_children cs) cs c d (sort_listed c cs) (insert_listed c d (sort_children cs) m)

kept_head :
    (p : ScheduledChild → Bool) (c d : ScheduledChild) (cs : List ScheduledChild)
    → p d ≡ true
    → (Memᴰ c (keep p cs) → Memᴰ c cs × (p c ≡ true))
    → Memᴰ c (d ∷ keep p cs)
    → Memᴰ c (d ∷ cs) × (p c ≡ true)
kept_head p c d cs h go (Memᴰ.head e) = (Memᴰ.head e, subst (λ x. p x ≡ true) (sym e) h)
kept_head p c d cs h go (Memᴰ.tail m) = let (k, e) = go m in (Memᴰ.tail k, e)

keep_listed :
    (p : ScheduledChild → Bool) (c : ScheduledChild) (cs : List ScheduledChild)
    → Memᴰ c (keep p cs)
    → Memᴰ c cs × (p c ≡ true)
keep_listed p c [] m = elim m [ ]
keep_listed p c (d ∷ cs) m = elim (Bool-cases (p d)) [
  | inl yes' ↦ kept_head p c d cs yes' (keep_listed p c cs) (rw (yes', keep) at m)
  | inr no' ↦ let (k, e) = keep_listed p c cs (rw (no', keep) at m) in (Memᴰ.tail k, e)
]

-- A call of `execute` starts a child only if it was submitted, does not wait for an approval, has
-- not completed, failed or been blocked, is not running, and all its dependencies have completed.
pub starts_candidate :
    (s s' : Scheduler) (id : String)
    → try_start s id ≡ ok (started s')
    → (c : ScheduledChild) × Memᴰ c s.children
      × (c.task_id ≡ id)
      × (c.awaiting_approval ≡ false)
      × (contains s.completed id ≡ false)
      × (contains s.failed id ≡ false)
      × (contains s.running id ≡ false)
      × (has s.blocked id ≡ false)
      × (all (contains s.completed) c.depends_on ≡ true)
unfolding ready ready_children is_candidate
starts_candidate s s' id h =
    let (_, within) = started_eq s s' id h in
    let (c, m, e) =
      within_listed (s.max_children - length s.running) (ready_children s) id within in
    let (k, fit) = keep_listed (is_candidate s) c s.children (sort_listed c _ m) in
    (c, k, e, ground arith, ground arith, ground arith, ground arith, ground arith, ground arith)
