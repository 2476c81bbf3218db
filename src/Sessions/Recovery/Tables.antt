-- ===== src/Sessions/Recovery/Tables.antt =====
-- The rows that a recovery reads and writes (src/skail/sessions/schema.py).
use skail.Prelude.{
  String, Bool, true, false, Option, none, some, List, [], ◌∷◌, str_eq, if◌then◌else◌,
}
use skail.Prelude.Dict.{Dict, get}
use skail.Domain.Tasks.{TaskStatus}
use skail.Domain.Attempts.{AttemptStatus}
use skail.Routing.Budget.Tables.{Reservation}
use skail.Routing.Usage.Tables.{ProviderCall}

-- rows of `attempts`, `tasks` and `approvals`
pub record AttemptRow : Type 0 where
  pub attempt_id : String
  pub task_id : String
  pub idempotency_key : String
  pub status : AttemptStatus

pub record TaskRow : Type 0 where
  pub task_id : String
  pub run_id : String
  pub idempotency_key : String
  pub status : TaskStatus

pub record ApprovalRow : Type 0 where
  pub approval_id : String
  pub run_id : String
  pub is_pending : Bool

-- `run_sessions` is the column `session_id` of `runs`.
pub record Journal : Type 0 where
  pub attempts : List AttemptRow
  pub tasks : List TaskRow
  pub run_sessions : Dict String
  pub provider_calls : List ProviderCall
  pub reservations : List Reservation
  pub approvals : List ApprovalRow

-- `status IN ('assigned','running')`
abbrev pub is_active : AttemptStatus → Bool
is_active AttemptStatus.assigned = true
is_active AttemptStatus.running = true
is_active _ = false

abbrev pub is_running : TaskStatus → Bool
is_running TaskStatus.running = true
is_running _ = false

-- `JOIN runs ... WHERE r.session_id=?`
abbrev is_session : String → Option String → Bool
is_session session_id none = false
is_session session_id (some s) = str_eq s session_id

abbrev pub run_in_session : Journal → String → String → Bool
run_in_session j session_id run_id = is_session session_id (get j.run_sessions run_id)

-- `JOIN tasks`
unfoldable pub find_task : String → List TaskRow → Option TaskRow
find_task id [] = none
find_task id (t ∷ tasks) = if str_eq t.task_id id then some t else find_task id tasks

abbrev row_in_session : Journal → String → Option TaskRow → Bool
row_in_session j session_id none = false
row_in_session j session_id (some t) = run_in_session j session_id t.run_id

abbrev pub task_in_session : Journal → String → String → Bool
task_in_session j session_id task_id = row_in_session j session_id (find_task task_id j.tasks)

-- `JOIN attempts`
unfoldable pub find_attempt_row : String → List AttemptRow → Option AttemptRow
find_attempt_row id [] = none
find_attempt_row id (a ∷ attempts) =
    if str_eq a.attempt_id id then some a else find_attempt_row id attempts
