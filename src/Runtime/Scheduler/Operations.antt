-- ===== src/Runtime/Scheduler/Operations.antt =====
-- The methods of `ChildScheduler` that change its state.
use skail.Prelude.{
  ℕ, zero, suc, ◌-◌, String, Bool, true, false, ◌&&◌, ◌||◌, not, none, some, List, [], ◌∷◌, ◌++◌,
  str_eq, if◌then◌else◌, leb, any, length, Result, ok, err,
}
use skail.Prelude.Int.{ℤ}
use skail.Prelude.Dict.{Dict, get, put}
use skail.Prelude.Sets.{contains, add, discard}
use skail.Runtime.Scheduler.State.{
  ScheduledChild, Reason, dependency_unsuccessful, dependency_cancelled, Scheduler, SchedulerError,
  max_children_invalid, duplicate_task, missing_dependency, unknown_task, has_child, ready,
}

unfoldable pub new : ℕ → Result SchedulerError Scheduler
new max_children =
    if not (leb 1 max_children && leb max_children 3)
    then err max_children_invalid
    else ok (record {
      max_children = max_children;
      children = [];
      completed = [];
      failed = [];
      running = [];
      blocked = [];
    })

unfoldable pub submit :
    Scheduler → String → ℤ → List String → Bool → Result SchedulerError Scheduler
submit s task_id priority depends_on awaiting_approval =
    if has_child s.children task_id
    then err duplicate_task
    else if any (λ d. not (has_child s.children d)) depends_on
    then err missing_dependency
    else ok (record s {
      children =
          s.children
          ++ record {
            task_id = task_id;
            priority = priority;
            creation_order = length s.children;
            depends_on = depends_on;
            awaiting_approval = awaiting_approval;
          }
            ∷ [];
    })

-- `_block_dependents`: `rest` makes the recursive call for a child that was just blocked
unfoldable pub block_over :
    (String → Dict Reason → Dict Reason)
    → Reason
    → String
    → List ScheduledChild
    → Dict Reason
    → Dict Reason
block_over rest reason task_id [] blocked = blocked
block_over rest reason task_id (c ∷ cs) blocked = block_over rest reason task_id cs (
    if contains c.depends_on task_id
    then rest c.task_id (put blocked c.task_id reason)
    else blocked)

-- Dependencies are submitted before their dependents, so no chain of dependents is longer than the
-- number of children, the fuel that `block` gives.
unfoldable pub block_dependents :
    ℕ → List ScheduledChild → Reason → String → Dict Reason → Dict Reason
unfolding block_over
block_dependents zero children reason task_id blocked = blocked
block_dependents (suc n) children reason task_id blocked =
    block_over (block_dependents n children reason) reason task_id children blocked

abbrev pub block : Scheduler → Reason → String → Dict Reason
block s reason task_id = block_dependents (length s.children) s.children reason task_id s.blocked

unfoldable pub finish : Scheduler → String → Bool → Result SchedulerError Scheduler
finish s task_id succeeded =
    if not (has_child s.children task_id)
    then err unknown_task
    else if succeeded
    then ok (record s { completed = add s.completed task_id })
    else ok (record s {
      failed = add s.failed task_id;
      blocked = block s dependency_unsuccessful task_id;
    })

unfoldable pub cancel : Scheduler → String → Result SchedulerError Scheduler
cancel s task_id =
    if not (has_child s.children task_id)
    then err unknown_task
    else ok
        (record s { failed = add s.failed task_id; blocked = block s dependency_cancelled task_id })

unfoldable pub approve_child : List ScheduledChild → String → List ScheduledChild
approve_child [] id = []
approve_child (c ∷ cs) id =
    if str_eq c.task_id id
    then record c { awaiting_approval = false } ∷ cs
    else c ∷ approve_child cs id

-- `self._children[task_id]` raises `KeyError`
unfoldable pub approve : Scheduler → String → Result SchedulerError Scheduler
unfolding approve_child
approve s task_id =
    if has_child s.children task_id
    then ok (record s { children = approve_child s.children task_id })
    else err unknown_task

unfoldable pub retry : Scheduler → String → Result SchedulerError Scheduler
retry s task_id =
    if has_child s.children task_id
    then ok (record s { failed = discard s.failed task_id })
    else err unknown_task

-- `xs.index(x) < n`
unfoldable pub is_within : ℕ → List String → String → Bool
is_within n [] x = false
is_within zero (y ∷ ys) x = false
is_within (suc n) (y ∷ ys) x = str_eq y x || is_within n ys x

-- How the wait of `execute` stands: blocked, started, or neither yet.
pub data Start : Type 0 where
  waiting : Start
  blocked_by : Reason → Start
  started : Scheduler → Start

unfoldable pub try_start : Scheduler → String → Result SchedulerError Start
unfolding is_within
try_start s task_id =
    if not (has_child s.children task_id)
    then err unknown_task
    else ok (elim (get s.blocked task_id) [
      | some reason ↦ blocked_by reason
      | none ↦
          if is_within (s.max_children - length s.running) (ready s) task_id
          then started (record s { running = add s.running task_id })
          else waiting
    ])

-- The statuses of a `TaskResult` (src/skail/domain/tasks.py), and what an operation ends with: a
-- plain value, a `TaskResult`, or an exception.
pub data ResultStatus : Type 0 where
  succeeded failed blocked cancelled budget_blocked returned_to_lead : ResultStatus

pub data Outcome : Type 0 where
  value raised : Outcome
  task_result : ResultStatus → Outcome

abbrev conclude_result : Scheduler → String → Bool → Outcome → Result SchedulerError Scheduler
conclude_result s task_id final_failure value = finish s task_id true
conclude_result s task_id final_failure (task_result succeeded) = finish s task_id true
conclude_result s task_id final_failure (task_result failed) =
    if final_failure then finish s task_id false else ok s
conclude_result s task_id final_failure (task_result _) = finish s task_id false
conclude_result s task_id final_failure raised = finish s task_id false

-- the `finally` of `execute`, behind the lock
abbrev pub leave : Scheduler → String → Scheduler
leave s task_id = record s { running = discard s.running task_id }

abbrev release_slot : String → Result SchedulerError Scheduler → Result SchedulerError Scheduler
release_slot task_id (ok s) = ok (leave s task_id)
release_slot task_id (err e) = err e

-- the part of `execute` behind `gate.run`, where no other call comes between its two writes
unfoldable pub conclude : Scheduler → String → Bool → Outcome → Result SchedulerError Scheduler
conclude s task_id final_failure outcome =
    release_slot task_id (conclude_result s task_id final_failure outcome)
