-- ===== src/Runtime/Scheduler/Retries.antt =====
-- A retry does not unblock the dependents of the task that failed before.
use skail.Prelude.{
  String, ◌≡◌, ◌⊎◌, inl, inr, true, false, arith, length, Option-cases, ok, subst, ap, ◌∙◌, ◌↔◌,
}
use skail.Prelude.Dict.{has, get}
use skail.Runtime.Scheduler.State.{
  Scheduler, Reason, dependency_unsuccessful, dependency_cancelled, has_child,
}
use skail.Runtime.Scheduler.Operations.{
  finish, cancel, retry, try_start, blocked_by, block_dependents,
}
use skail.Runtime.Scheduler.Blocking.{Depends, IsLayered, block_dependents_exact, dependent_listed}
use skail.Runtime.Scheduler.Layers.{has_child-mem}

finished :
    (s s' : Scheduler) (t : String)
    → finish s t false ≡ ok s'
    → (s'.blocked
        ≡ block_dependents (length s.children) s.children dependency_unsuccessful t s.blocked)
      × (s'.children ≡ s.children)
unfolding finish
finished s s' t h = ground arith

cancelled_eq :
    (s s' : Scheduler) (t : String)
    → cancel s t ≡ ok s'
    → s'.blocked ≡ block_dependents (length s.children) s.children dependency_cancelled t s.blocked
unfolding cancel
cancelled_eq s s' t h = ground arith

-- A failure and a cancellation block exactly the transitive dependents of the task, beside what
-- was blocked before.
pub failure_blocks :
    (s s' : Scheduler) (t x : String)
    → IsLayered s.children
    → (finish s t false ≡ ok s') ⊎ (cancel s t ≡ ok s')
    → (has s'.blocked x ≡ true) ↔ ((has s.blocked x ≡ true) ⊎ Depends s.children t x)
failure_blocks s s' t x layered (inl h) =
    rw ((finished s s' t h).0)
      (block_dependents_exact layered dependency_unsuccessful t x s.blocked)
failure_blocks s s' t x layered (inr h) =
    rw (cancelled_eq s s' t h) (block_dependents_exact layered dependency_cancelled t x s.blocked)

retried :
    (s s' : Scheduler) (t : String)
    → retry s t ≡ ok s'
    → (s'.blocked ≡ s.blocked) × (s'.children ≡ s.children)
unfolding retry
retried s s' t h = ground arith

succeeded_eq :
    (s s' : Scheduler) (t : String)
    → finish s t true ≡ ok s'
    → (s'.blocked ≡ s.blocked) × (s'.children ≡ s.children)
unfolding finish
succeeded_eq s s' t h = ground arith

blocked_start :
    (s : Scheduler) (x : String)
    → has_child s.children x ≡ true
    → has s.blocked x ≡ true
    → (r : Reason) × (try_start s x ≡ ok (blocked_by r))
unfolding try_start
blocked_start s x h b = elim (Option-cases (get s.blocked x)) [
  | inl e ↦ cc e
  | inr (r, e) ↦ (r, rw (h, e, try_start))
]

-- Once a task has failed, a retry of it and its later success leave every transitive dependent
-- blocked: a call of `execute` for one answers with the blocked result.
pub retry_leaves_blocked :
    (s s1 s2 s3 : Scheduler) (t x : String)
    → IsLayered s.children
    → Depends s.children t x
    → finish s t false ≡ ok s1
    → retry s1 t ≡ ok s2
    → finish s2 t true ≡ ok s3
    → (r : Reason) × (try_start s3 x ≡ ok (blocked_by r))
retry_leaves_blocked s s1 s2 s3 t x layered (k, c, d, named) f1 f2 f3 =
    let (b1, c1) = finished s s1 t f1 in
    let (b2, c2) = retried s1 s2 t f2 in
    let (b3, c3) = succeeded_eq s2 s3 t f3 in
    let listed =
      subst (λ y. has_child s.children y ≡ true) named
        (has_child-mem s.children c (dependent_listed d)) in
    let stuck = (failure_blocks s s1 t x layered (inl f1)).1 (inr (k, c, d, named)) in
    blocked_start s3 x (ap (λ l. has_child l x) (c3 ∙ c2 ∙ c1) ∙ listed)
      (ap (λ b. has b x) (b3 ∙ b2) ∙ stuck)
