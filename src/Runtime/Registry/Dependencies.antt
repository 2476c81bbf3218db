-- ===== src/Runtime/Registry/Dependencies.antt =====
-- The dependencies of the registered tasks never form a cycle.
use skail.Prelude.{
  String, ◌≡◌, refl, sym, subst, ◌∙◌, ap, Bool, true, ◌||◌, some, List, [], ◌∷◌, map, arith, str_eq,
  Bool-cases, inl, inr, ok,
}
use skail.Prelude.Dict.{Dict, get, has, put, keys}
use skail.Prelude.Sets.{contains}
use skail.Prelude.Order.{sorted, insert}
use skail.Domain.Tasks.{TaskStatus}
use skail.Domain.Graph.{Graph, Search, explore}
use skail.Domain.Graph.Decision.{IsAcyclic, done-IsAcyclic, Reaches-known}
use skail.Runtime.Registry.{
  TaskSpec, RegisteredTask, TaskRegistry, registry, put_all, specs_of, by_id, combine,
  dependencies_of, has_cycle, text_lt, check_cycle, proposed_of, load_from_journal,
}
use skail.Runtime.Registry.Histories.{
  Step, Steps, registering, moving, recording, loading, stop, next, register_many_inv,
  transition_inv, recorded_inv,
}

contains-insert :
    (lt : String → String → Bool) (x y : String) (xs : List String)
    → contains (insert lt x xs) y ≡ (str_eq x y || contains xs y)
unfolding insert contains
contains-insert lt x y [] = ground arith
contains-insert lt x y (z ∷ xs) = ground (arith, contains-insert lt x y xs)

contains-sorted :
    (lt : String → String → Bool) (xs : List String) (y : String)
    → contains (sorted lt xs) y ≡ contains xs y
unfolding sorted contains
contains-sorted lt [] y = refl
contains-sorted lt (x ∷ xs) y =
    ground (arith, contains-insert lt x y (sorted lt xs), contains-sorted lt xs y)

known_keys :
    (d : Dict TaskSpec) (x : String) → has (dependencies_of d) x ≡ true → contains (keys d) x ≡ true
unfolding dependencies_of keys get contains
known_keys [] x h = h
known_keys ((k, s) ∷ d) x h = ground (arith, h, known_keys d x)

no_cycle : (s : Search) → has_cycle s ≡ ok tt → (v : List String) × (s ≡ Search.done v)
no_cycle (Search.done v) h = (v, refl)
no_cycle Search.cyclic h = cc
no_cycle Search.missing h = cc
no_cycle Search.exhausted h = cc

check_cycle-IsAcyclic : (d : Dict TaskSpec) → check_cycle d ≡ ok tt → IsAcyclic (dependencies_of d)
unfolding check_cycle
check_cycle-IsAcyclic d h =
    let g = dependencies_of d in
    let order = sorted text_lt (keys d) in
    let (v, e) = no_cycle (explore g order) h in
    done-IsAcyclic g order v (λ x k. contains-sorted text_lt (keys d) x ∙ known_keys d x k) e

specs_of-put :
    (d : Dict RegisteredTask) (k : String) (t : RegisteredTask)
    → specs_of (put d k t) ≡ put (specs_of d) k t.spec
unfolding specs_of put
specs_of-put [] k t = refl
specs_of-put ((j, u) ∷ d) k t = elim (Bool-cases (str_eq j k)) [
  | inl e ↦ rw e refl
  | inr e ↦ rw e (ap (λ l. (j, u.spec) ∷ l) (specs_of-put d k t))
]

specs_of-register :
    (d : Dict RegisteredTask) (specs : List TaskSpec)
    → specs_of (put_all d (map proposed_of specs)) ≡ combine d specs
unfolding put_all
specs_of-register d [] = refl
specs_of-register d (s ∷ specs) =
    specs_of-register (put d s.task_id (proposed_of s).1) specs
    ∙ ap (λ l. put_all l (map by_id specs)) (specs_of-put d s.task_id (proposed_of s).1)

-- A new status leaves the specifications alone.
specs_of-move :
    (d : Dict RegisteredTask) (k : String) (t : RegisteredTask) (status : TaskStatus)
    → get d k ≡ some t
    → specs_of (put d k (record t { status = status })) ≡ specs_of d
unfolding specs_of put get
specs_of-move [] k t status h = cc
specs_of-move ((j, u) ∷ d) k t status h = elim (Bool-cases (str_eq j k)) [
  | inl e ↦
      let same : u ≡ t = ground (arith, rw e at h) in
      rw e (ap (λ w. (j, w.spec) ∷ specs_of d) (sym same))
  | inr e ↦ rw e (ap (λ l. (j, u.spec) ∷ l) (specs_of-move d k t status (rw e at h)))
]

-- The dependencies of the tasks of a registry.
abbrev pub graph : TaskRegistry → Graph
graph r = dependencies_of (specs_of r.tasks)

step-IsAcyclic : {r r' : TaskRegistry} → Step r r' → IsAcyclic (graph r) → IsAcyclic (graph r')
unfolding load_from_journal
step-IsAcyclic {r} {r'} (registering specs h) v =
    let c = register_many_inv r r' specs h in
    subst (λ d. IsAcyclic (dependencies_of d))
      (sym (ap specs_of c.tasks ∙ specs_of-register r.tasks specs))
      (check_cycle-IsAcyclic (combine r.tasks specs) c.acyclic)
step-IsAcyclic {r} {r'} (moving id expected target n h) v =
    elim (transition_inv r r' id expected target n h).0 [
      | inl same ↦ subst (λ d. IsAcyclic (dependencies_of (specs_of d))) (sym same) v
      | inr m ↦
          subst (λ d. IsAcyclic (dependencies_of d))
            (sym (ap specs_of m.tasks ∙ specs_of-move r.tasks id m.current m.status m.found)) v
    ]
step-IsAcyclic {r} {r'} (recording id n h) v =
    subst (λ d. IsAcyclic (dependencies_of (specs_of d))) (sym (recorded_inv r r' id n h).0) v
step-IsAcyclic (loading attempt_rows task_rows) v = v

Steps-IsAcyclic : {r r' : TaskRegistry} → Steps r r' → IsAcyclic (graph r) → IsAcyclic (graph r')
Steps-IsAcyclic stop v = v
Steps-IsAcyclic (next s rest) v = Steps-IsAcyclic rest (step-IsAcyclic s v)

-- After any calls on a new registry, no registered task depends on itself, directly or through
-- other tasks.
pub registry-IsAcyclic : {r : TaskRegistry} → Steps registry r → IsAcyclic (graph r)
unfolding registry specs_of dependencies_of get
registry-IsAcyclic s = Steps-IsAcyclic s (λ x c. let h = Reaches-known [] c in cc)
