-- ===== src/Runtime/Scheduler/Order.antt =====
-- The ready queue: who is in it, and in which order.
use mathlib.Core.List.{Perm}
use mathlib.Core.List.Perm
use skail.Prelude.{
  all-All, ◌≡◌, inl, inr, refl, true, false, List, [], ◌∷◌, map, arith, keep, All, Bool-cases, ◌≤◌,
  ◌↔◌,
}
use skail.Prelude.Int.{◌≤ℤ◌}
use skail.Prelude.Dict.{has}
use skail.Prelude.Sets.{contains}
use skail.Runtime.Scheduler.State.{
  ScheduledChild, Scheduler, is_candidate, comes_before, insert_child, sort_children,
  ready_children, ready,
}

comes_before_total : (a b : ScheduledChild) → comes_before a b ≡ false → comes_before b a ≡ true
unfolding comes_before
comes_before_total a b h = ground arith

comes_before_trans :
    (a b c : ScheduledChild)
    → comes_before a b ≡ true
    → comes_before b c ≡ true
    → comes_before a c ≡ true
unfolding comes_before
comes_before_trans a b c h k = ground arith

abbrev IsSorted : List ScheduledChild → Type 0
IsSorted [] = Unit
IsSorted (c ∷ cs) = All (λ d. comes_before c d ≡ true) cs × IsSorted cs

All-trans :
    (a b : ScheduledChild) (cs : List ScheduledChild)
    → comes_before a b ≡ true
    → All (λ d. comes_before b d ≡ true) cs
    → All (λ d. comes_before a d ≡ true) cs
All-trans a b [] h k = tt
All-trans a b (c ∷ cs) h k = (comes_before_trans a b c h k.0, All-trans a b cs h k.1)

All-insert :
    (a c : ScheduledChild) (cs : List ScheduledChild)
    → comes_before a c ≡ true
    → All (λ d. comes_before a d ≡ true) cs
    → All (λ d. comes_before a d ≡ true) (insert_child c cs)
unfolding insert_child
All-insert a c [] h k = (h, tt)
All-insert a c (d ∷ cs) h k = elim (Bool-cases (comes_before c d)) [
  | inl e ↦ rw e (h, k)
  | inr e ↦ rw e (k.0, All-insert a c cs h k.1)
]

insert_child-IsSorted :
    (c : ScheduledChild) (cs : List ScheduledChild) → IsSorted cs → IsSorted (insert_child c cs)
unfolding insert_child
insert_child-IsSorted c [] s = (tt, tt)
insert_child-IsSorted c (d ∷ cs) s = elim (Bool-cases (comes_before c d)) [
  | inl e ↦ rw e ((e, All-trans c d cs e s.0), s)
  | inr e ↦ rw e (All-insert d c cs (comes_before_total c d e) s.0, insert_child-IsSorted c cs s.1)
]

insert_child-perm :
    (c : ScheduledChild) (cs : List ScheduledChild) → Perm (insert_child c cs) (c ∷ cs)
unfolding insert_child
insert_child-perm c [] = Perm.refl (c ∷ [])
insert_child-perm c (d ∷ cs) = elim (Bool-cases (comes_before c d)) [
  | inl e ↦ rw e (Perm.refl _)
  | inr e ↦ rw e (Perm.trans (Perm.cons d (insert_child-perm c cs)) (Perm.swap c d cs))
]

sort_children-IsSorted : (cs : List ScheduledChild) → IsSorted (sort_children cs)
unfolding sort_children
sort_children-IsSorted [] = tt
sort_children-IsSorted (c ∷ cs) = insert_child-IsSorted c _ (sort_children-IsSorted cs)

sort_children-perm : (cs : List ScheduledChild) → Perm (sort_children cs) cs
unfolding sort_children
sort_children-perm [] = Perm.refl []
sort_children-perm (c ∷ cs) =
    Perm.trans (insert_child-perm c (sort_children cs)) (Perm.cons c (sort_children-perm cs))

-- The order that a user sees: priority decides, and the time of creation among equals.
abbrev pub InOrder : ScheduledChild → ScheduledChild → Type 0
InOrder a b =
    (b.priority ≤ℤ a.priority) × (a.priority ≡ b.priority → a.creation_order ≤ b.creation_order)

abbrev pub AreInOrder : List ScheduledChild → Type 0
AreInOrder [] = Unit
AreInOrder (c ∷ cs) = All (InOrder c) cs × AreInOrder cs

comes_before-InOrder : (a b : ScheduledChild) → comes_before a b ≡ true → InOrder a b
unfolding comes_before
comes_before-InOrder a b h = (ground (arith, h), λ e. ground (arith, h, e))

All-InOrder :
    (a : ScheduledChild) (cs : List ScheduledChild)
    → All (λ d. comes_before a d ≡ true) cs
    → All (InOrder a) cs
All-InOrder a [] h = tt
All-InOrder a (c ∷ cs) h = (comes_before-InOrder a c h.0, All-InOrder a cs h.1)

IsSorted-AreInOrder : (cs : List ScheduledChild) → IsSorted cs → AreInOrder cs
IsSorted-AreInOrder [] h = tt
IsSorted-AreInOrder (c ∷ cs) h = (All-InOrder c cs h.0, IsSorted-AreInOrder cs h.1)

-- A child that may start: nothing has become of it yet, and all its dependencies have completed.
pub record IsEligible (s : Scheduler) (c : ScheduledChild) : Type 0 where
  pub approved : c.awaiting_approval ≡ false
  pub open_still : contains s.completed c.task_id ≡ false
  pub unfailed : contains s.failed c.task_id ≡ false
  pub idle : contains s.running c.task_id ≡ false
  pub unblocked : has s.blocked c.task_id ≡ false
  pub dependencies : All (λ d. contains s.completed d ≡ true) c.depends_on

is_candidate-IsEligible :
    (s : Scheduler) (c : ScheduledChild) → (is_candidate s c ≡ true) ↔ IsEligible s c
unfolding is_candidate
is_candidate-IsEligible s c = (
  (λ h. record {
    approved = ground (arith, h);
    open_still = ground (arith, h);
    unfailed = ground (arith, h);
    idle = ground (arith, h);
    unblocked = ground (arith, h);
    dependencies = (all-All (contains s.completed) c.depends_on).0 (ground (arith, h));
  }),
  (λ e. ground (
    arith,
    e.approved,
    e.open_still,
    e.unfailed,
    e.idle,
    e.unblocked,
    (all-All (contains s.completed) c.depends_on).1 e.dependencies,
  )),
)

-- `ready` names each child that passes its test of readiness, as often as it was submitted, and no
-- other; the test passes exactly a child that is approved, has not completed, failed, been started or
-- been blocked, and whose dependencies have all completed. The names stand by falling priority, and
-- those of equal priority in the order of their creation.
pub ready_exact :
    (s : Scheduler)
    → ((cs : List ScheduledChild) × (ready s ≡ map (λ c. c.task_id) cs)
        × Perm cs (keep (is_candidate s) s.children)
        × AreInOrder cs)
      × ((c : ScheduledChild) → (is_candidate s c ≡ true) ↔ IsEligible s c)
unfolding ready
ready_exact s = (
  (
    ready_children s,
    refl,
    sort_children-perm _,
    IsSorted-AreInOrder _ (sort_children-IsSorted (keep (is_candidate s) s.children)),
  ),
  is_candidate-IsEligible s,
)
