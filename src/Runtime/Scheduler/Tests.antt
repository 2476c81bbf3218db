-- ===== src/Runtime/Scheduler/Tests.antt =====
-- Two children, the second behind the first.
use mathlib.Core.List.{Memᴰ, Perm}
use skail.Prelude.{zero, ◌≡◌, ◌⊎◌, ◌↔◌, inl, refl, true, false, List, [], ◌∷◌, map, keep, ok, all}
use skail.Prelude.Int.{pos}
use skail.Prelude.Dict.{get, put, has}
use skail.Prelude.Sets.{contains, add, discard}
use skail.Runtime.Scheduler.State.{
  ScheduledChild, Scheduler, Reason, dependency_unsuccessful, is_candidate, comes_before, has_child,
  ready, sort_children,
}
use skail.Runtime.Scheduler.Operations.{
  new, submit, finish, retry, try_start, started, blocked_by, conclude, raised, block_dependents,
}
use skail.Runtime.Scheduler.Blocking.{IsLayered, direct, Depends}
use skail.Runtime.Scheduler.Order.{ready_exact, AreInOrder, IsEligible}
use skail.Runtime.Scheduler.Safety.{
  Reach, first, next, submitting, starting, concluding, IsSafe, Reach-IsSafe,
}
use skail.Runtime.Scheduler.Starts.{starts_candidate}
use skail.Runtime.Scheduler.Retries.{failure_blocks, retry_leaves_blocked}

abbrev empty : Scheduler
empty = record {
  max_children = 3;
  children = [];
  completed = [];
  failed = [];
  running = [];
  blocked = [];
}

abbrev a : ScheduledChild
a = record {
  task_id = "a";
  priority = pos 0;
  creation_order = 0;
  depends_on = [];
  awaiting_approval = false;
}

abbrev b : ScheduledChild
b = record {
  task_id = "b";
  priority = pos 5;
  creation_order = 1;
  depends_on = "a" ∷ [];
  awaiting_approval = false;
}

abbrev one : Scheduler
one = record empty { children = a ∷ [] }

abbrev two : Scheduler
two = record empty { children = a ∷ b ∷ [] }

abbrev busy : Scheduler
busy = record two { running = "a" ∷ [] }

abbrev broken : Scheduler
broken = record two { failed = "a" ∷ []; blocked = ("b", dependency_unsuccessful) ∷ [] }

abbrev retried : Scheduler
retried = record broken { failed = [] }

abbrev done : Scheduler
done = record retried { completed = "a" ∷ [] }

new_runs : new 3 ≡ ok empty
unfolding new
new_runs = refl

submit_a : submit empty "a" (pos 0) [] false ≡ ok one
unfolding submit has_child
submit_a = refl

submit_b : submit one "b" (pos 5) ("a" ∷ []) false ≡ ok two
unfolding submit has_child
submit_b = refl

start_a : try_start two "a" ≡ ok (started busy)
unfolding try_start has_child get ready sort_children is_candidate comes_before contains add
start_a = refl

conclude_a : conclude busy "a" true raised ≡ ok broken
unfolding conclude finish has_child block_dependents put contains add discard
conclude_a = refl

finish_a : finish two "a" false ≡ ok broken
unfolding finish has_child block_dependents put contains add
finish_a = refl

retry_a : retry broken "a" ≡ ok retried
unfolding retry has_child discard
retry_a = refl

succeed_a : finish retried "a" true ≡ ok done
unfolding finish has_child contains add
succeed_a = refl

two_reached : Reach two
two_reached =
    next (next (first 3 new_runs) (submitting "a" (pos 0) [] false submit_a))
      (submitting "b" (pos 5) ("a" ∷ []) false submit_b)

two-IsLayered : IsLayered two.children
two-IsLayered = (Reach-IsSafe two_reached).layered

b-Depends : Depends two.children "a" "b"
unfolding contains
b-Depends = (zero, b, direct b (Memᴰ.tail (Memᴰ.head refl)) refl, refl)

ready_exact_example :
    ((cs : List ScheduledChild) × (ready two ≡ map (λ c. c.task_id) cs)
      × Perm cs (keep (is_candidate two) two.children)
      × AreInOrder cs)
    × ((c : ScheduledChild) → (is_candidate two c ≡ true) ↔ IsEligible two c)
ready_exact_example = ready_exact two

Reach-IsSafe_example : IsSafe broken
Reach-IsSafe_example =
    Reach-IsSafe
      (next (next two_reached (starting "a" start_a)) (concluding "a" true raised conclude_a))

starts_candidate_example :
    (c : ScheduledChild) × Memᴰ c two.children
    × (c.task_id ≡ "a")
    × (c.awaiting_approval ≡ false)
    × (contains two.completed "a" ≡ false)
    × (contains two.failed "a" ≡ false)
    × (contains two.running "a" ≡ false)
    × (has two.blocked "a" ≡ false)
    × (all (contains two.completed) c.depends_on ≡ true)
starts_candidate_example = starts_candidate two busy "a" start_a

failure_blocks_example :
    (has broken.blocked "b" ≡ true) ↔ ((has two.blocked "b" ≡ true) ⊎ Depends two.children "a" "b")
failure_blocks_example = failure_blocks two broken "a" "b" two-IsLayered (inl finish_a)

retry_leaves_blocked_example : (r : Reason) × (try_start done "b" ≡ ok (blocked_by r))
retry_leaves_blocked_example =
    retry_leaves_blocked two broken retried done "a" "b" two-IsLayered b-Depends finish_a retry_a
      succeed_a
