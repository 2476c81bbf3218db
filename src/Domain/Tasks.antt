-- ===== src/Domain/Tasks.antt =====
-- src/skail/domain/tasks.py: the lifecycle of a task, `TaskStatus` and `transition_task`.
pub mod Lifecycle
use skail.Prelude.{
  ℕ, Bool, true, false, ◌&&◌, not, ◌==◌, if◌then◌else◌, List, [], ◌∷◌, Result, ok, err, any,
}

pub data TaskStatus : Type 0 where
  proposed queued running succeeded failed returned_to_lead blocked budget_blocked cancelled :
      TaskStatus

-- `==` and `is` on the members of the enumeration
abbrev position : TaskStatus → ℕ
position proposed = 0
position queued = 1
position running = 2
position succeeded = 3
position failed = 4
position returned_to_lead = 5
position blocked = 6
position budget_blocked = 7
position cancelled = 8

abbrev pub status_eq : TaskStatus → TaskStatus → Bool
status_eq a b = position a == position b

abbrev terminal_task_statuses : List TaskStatus
terminal_task_statuses = succeeded ∷ returned_to_lead ∷ blocked ∷ budget_blocked ∷ cancelled ∷ []

unfoldable pub is_terminal : TaskStatus → Bool
is_terminal s = any (status_eq s) terminal_task_statuses

-- `_TASK_TRANSITIONS.get(current, frozenset())`
unfoldable pub task_transitions : TaskStatus → List TaskStatus
task_transitions proposed = queued ∷ blocked ∷ []
task_transitions queued = running ∷ blocked ∷ cancelled ∷ []
task_transitions running =
    succeeded ∷ failed ∷ returned_to_lead ∷ blocked ∷ budget_blocked ∷ cancelled ∷ []
task_transitions failed = queued ∷ returned_to_lead ∷ []
task_transitions _ = []

-- the two messages of `DomainTransitionError`
pub data TransitionError : Type 0 where
  illegal_transition : TaskStatus → TaskStatus → TransitionError
  only_attempt_one : TransitionError

unfoldable pub transition_task : TaskStatus → TaskStatus → ℕ → Result TransitionError TaskStatus
unfolding is_terminal task_transitions
transition_task current target attempt_number =
    if status_eq current target && is_terminal current
    then ok current
    else if not (any (status_eq target) (task_transitions current))
    then err (illegal_transition current target)
    else if status_eq current failed && status_eq target queued && not (attempt_number == 1)
    then err only_attempt_one
    else ok target
