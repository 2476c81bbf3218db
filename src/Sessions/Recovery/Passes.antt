-- ===== src/Sessions/Recovery/Passes.antt =====
-- `_recover_locked`: its queries, its two passes and the releases.
use skail.Prelude.{
  String, Bool, false, ◌&&◌, ◌||◌, not, Option, none, some, List, [], ◌∷◌, ◌++◌, map, str_eq,
  if◌then◌else◌, keep, Result, ok, err,
}
use skail.Prelude.Sets.{contains, add}
use skail.Domain.Tasks.{TaskStatus}
use skail.Domain.Attempts.{AttemptStatus}
use skail.Routing.Budget.Tables.{Reservation, reserved, active, released, status_eq}
use skail.Routing.Usage.Tables.{CallStatus, ProviderCall, call_eq}
use skail.Sessions.Recovery.Tables.{
  AttemptRow, TaskRow, ApprovalRow, Journal, is_active, is_running, run_in_session, task_in_session,
  find_attempt_row,
}

-- `SET status='interrupted' WHERE attempt_id=? AND status IN ('assigned','running')`
abbrev pub interrupt : String → AttemptRow → AttemptRow
interrupt id a =
    if str_eq a.attempt_id id && is_active a.status
    then record a { status = AttemptStatus.interrupted }
    else a

-- `SET status='returned_to_lead' WHERE task_id=? AND status='running'`
abbrev pub return_to_lead : String → TaskRow → TaskRow
return_to_lead id t =
    if str_eq t.task_id id && is_running t.status
    then record t { status = TaskStatus.returned_to_lead }
    else t

-- the variables of the passes
pub record Pass : Type 0 where
  pub attempts : List AttemptRow
  pub tasks : List TaskRow
  pub interrupted : List String
  pub protected_task_ids : List String
  pub orphan_task_ids : List String

-- the attempts of the session that were assigned or running
abbrev pub is_open_attempt : Journal → String → AttemptRow → Bool
is_open_attempt j session_id a = is_active a.status && task_in_session j session_id a.task_id

abbrev pub is_lost : List String → AttemptRow → Bool
is_lost live_keys a = not (contains live_keys a.idempotency_key)

-- `for row in rows`
abbrev pub protected : AttemptRow → Pass → Pass
protected row p = record p { protected_task_ids = add p.protected_task_ids row.task_id }

abbrev pub lost_attempt : AttemptRow → Pass → Pass
lost_attempt row p = record p {
  interrupted = p.interrupted ++ row.idempotency_key ∷ [];
  orphan_task_ids = add p.orphan_task_ids row.task_id;
  attempts = map (interrupt row.attempt_id) p.attempts;
  tasks = map (return_to_lead row.task_id) p.tasks;
}

abbrev pub attempt_step : List String → AttemptRow → Pass → Pass
attempt_step live_keys row p =
    if contains live_keys row.idempotency_key then protected row p else lost_attempt row p

unfoldable pub attempt_pass : List String → List AttemptRow → Pass → Pass
attempt_pass live_keys [] p = p
attempt_pass live_keys (row ∷ rows) p = attempt_pass live_keys rows (attempt_step live_keys row p)

-- `for row in running_tasks`
abbrev pub note_orphan : TaskRow → Pass → Pass
note_orphan row p = if contains p.orphan_task_ids row.task_id then p else record p {
  interrupted = p.interrupted ++ row.idempotency_key ∷ [];
  orphan_task_ids = add p.orphan_task_ids row.task_id;
}

abbrev pub task_step : TaskRow → Pass → Pass
task_step row p =
    if contains p.protected_task_ids row.task_id
    then p
    else record (note_orphan row p) { tasks = map (return_to_lead row.task_id) p.tasks }

unfoldable pub task_pass : List TaskRow → Pass → Pass
task_pass [] p = p
task_pass (row ∷ rows) p = task_pass rows (task_step row p)

-- the calls of the session that are started or ambiguous, and the tasks of their attempts
abbrev attempt_task : Option AttemptRow → List String
attempt_task none = []
attempt_task (some a) = a.task_id ∷ []

abbrev attempt_in_session : Journal → String → Option AttemptRow → Bool
attempt_in_session j session_id none = false
attempt_in_session j session_id (some a) = task_in_session j session_id a.task_id

abbrev pub is_ambiguous_call : Journal → String → ProviderCall → Bool
is_ambiguous_call j session_id c =
    (call_eq c.status CallStatus.started || call_eq c.status CallStatus.ambiguous)
    && attempt_in_session j session_id (find_attempt_row c.attempt_id j.attempts)

unfoldable pub tasks_of_calls : Journal → List ProviderCall → List String
tasks_of_calls j [] = []
tasks_of_calls j (c ∷ calls) =
    attempt_task (find_attempt_row c.attempt_id j.attempts) ++ tasks_of_calls j calls

-- `WHERE task_id=? AND status IN ('active','reserved')`
abbrev is_task : String → Option String → Bool
is_task id none = false
is_task id (some t) = str_eq t id

abbrev pub is_held_for : String → Reservation → Bool
is_held_for task_id r =
    is_task task_id r.task_id && (status_eq r.status active || status_eq r.status reserved)

abbrev pub release_for : String → Reservation → Reservation
release_for task_id r = if is_held_for task_id r then record r { status = released } else r

abbrev pub ids_of : List Reservation → List String
ids_of = map (λ r. r.reservation_id)

-- `for task_id in orphan_task_ids`: a set, whose order the source leaves open
unfoldable pub release_orphans :
    List String → List String → List Reservation → List String × List Reservation
release_orphans ambiguous_task_ids [] rows = ([], rows)
release_orphans ambiguous_task_ids (id ∷ ids) rows =
    if contains ambiguous_task_ids id
    then release_orphans ambiguous_task_ids ids rows
    else let rest = release_orphans ambiguous_task_ids ids (map (release_for id) rows) in
      (ids_of (keep (is_held_for id) rows) ++ rest.0, rest.1)

pub record RecoveryResult : Type 0 where
  pub interrupted_call_keys : List String
  pub pending_approval_ids : List String
  pub released_reservation_ids : List String
  pub ambiguous_call_ids : List String

pub data RecoveryError : Type 0 where
  checkpoint_unavailable checkpoint_corrupt : RecoveryError

abbrev pub initial_pass : Journal → Pass
initial_pass j = record {
  attempts = j.attempts;
  tasks = j.tasks;
  interrupted = [];
  protected_task_ids = [];
  orphan_task_ids = [];
}

-- the two passes
unfoldable pub both_passes : List String → String → Journal → Pass
both_passes live_keys session_id j =
    let p =
      attempt_pass live_keys (keep (is_open_attempt j session_id) j.attempts) (initial_pass j) in
    task_pass
      (keep (λ (t : TaskRow). is_running t.status && run_in_session j session_id t.run_id) p.tasks)
      p

unfoldable pub recover : List String → String → Journal → RecoveryResult × Journal
recover live_keys session_id j =
    let calls = keep (is_ambiguous_call j session_id) j.provider_calls in
    let p = both_passes live_keys session_id j in
    let (ids, rows) = release_orphans (tasks_of_calls j calls) p.orphan_task_ids j.reservations in
    (
      record {
        interrupted_call_keys = p.interrupted;
        pending_approval_ids =
            map (λ (a : ApprovalRow). a.approval_id)
              (keep (λ (a : ApprovalRow). a.is_pending && run_in_session j session_id a.run_id)
                j.approvals);
        released_reservation_ids = ids;
        ambiguous_call_ids = map (λ (c : ProviderCall). c.call_id) calls;
      },
      record j { attempts = p.attempts; tasks = p.tasks; reservations = rows },
    )

-- `_recover_locked`, with the answer of `latest_valid`: the keys of a checkpoint, none, or an error
unfoldable pub recover_locked :
    Result RecoveryError (Option (List String))
    → String
    → Journal
    → Result RecoveryError (RecoveryResult × Journal)
recover_locked (err e) session_id j = err e
recover_locked (ok none) session_id j = err checkpoint_unavailable
recover_locked (ok (some live_keys)) session_id j = ok (recover live_keys session_id j)
