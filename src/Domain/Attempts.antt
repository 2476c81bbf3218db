-- ===== src/Domain/Attempts.antt =====
-- src/skail/domain/tasks.py: the lifecycle of one attempt, `AttemptStatus` and `transition_attempt`.
pub mod Progress
use skail.Prelude.{
  ℕ, Bool, ◌&&◌, ◌||◌, not, ◌==◌, if◌then◌else◌, List, [], ◌∷◌, Result, ok, err, any,
}

pub data AttemptStatus : Type 0 where
  assigned running succeeded failed blocked cancelled interrupted : AttemptStatus

abbrev position : AttemptStatus → ℕ
position assigned = 0
position running = 1
position succeeded = 2
position failed = 3
position blocked = 4
position cancelled = 5
position interrupted = 6

abbrev pub status_eq : AttemptStatus → AttemptStatus → Bool
status_eq a b = position a == position b

abbrev is_live : AttemptStatus → Bool
is_live s = status_eq s assigned || status_eq s running

-- `_ATTEMPT_TRANSITIONS.get(current, frozenset())`
unfoldable attempt_transitions : AttemptStatus → List AttemptStatus
attempt_transitions assigned = running ∷ blocked ∷ cancelled ∷ interrupted ∷ []
attempt_transitions running = succeeded ∷ failed ∷ blocked ∷ cancelled ∷ interrupted ∷ []
attempt_transitions _ = []

pub data AttemptError : Type 0 where
  illegal_attempt : AttemptStatus → AttemptStatus → AttemptError

unfoldable pub transition_attempt :
    AttemptStatus → AttemptStatus → Result AttemptError AttemptStatus
unfolding attempt_transitions
transition_attempt current target =
    if status_eq current target && not (is_live current)
    then ok current
    else if not (any (status_eq target) (attempt_transitions current))
    then err (illegal_attempt current target)
    else ok target
