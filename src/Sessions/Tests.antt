-- ===== src/Sessions/Tests.antt =====
-- A session with a live attempt, a lost one, and a lost one whose provider call is ambiguous.
use skail.Prelude.{String, ◌≡◌, refl, true, none, some, [], ◌∷◌, map, All, keep, ok, err}
use skail.Prelude.Dict.{get}
use skail.Prelude.Sets.{contains, add}
use skail.Domain.Tasks.{TaskStatus}
use skail.Domain.Attempts.{AttemptStatus}
use skail.Routing.Budget.Tables.{Reservation, ReservationStatus}
use skail.Routing.Usage.Tables.{CallStatus}
use skail.Sessions.Recovery.Tables.{AttemptRow, TaskRow, Journal, find_task, find_attempt_row}
use skail.Sessions.Recovery.Passes.{
  RecoveryError, attempt_pass, task_pass, tasks_of_calls, is_ambiguous_call, release_orphans,
  both_passes, recover, recover_locked,
}
use skail.Sessions.Recovery.Attempts.{recovered_attempt, recover_attempts}
use skail.Sessions.Recovery.Moves.{Moves}
use skail.Sessions.Recovery.Tasks.{IsAttended, recover_tasks-IsAttended}
use skail.Sessions.Recovery.Releases.{is_released, released_if, recover_reservations}

abbrev attempt : String → String → String → AttemptStatus → AttemptRow
attempt id task key s = record {
  attempt_id = id;
  task_id = task;
  idempotency_key = key;
  status = s;
}

abbrev task : String → TaskStatus → TaskRow
task id s = record { task_id = id; run_id = "r"; idempotency_key = id; status = s }

abbrev held : String → String → ReservationStatus → Reservation
held id task s = record {
  reservation_id = id;
  run_id = "r";
  task_id = some task;
  amount_usd = 5;
  status = s;
  idempotency_key = id;
  purpose = "task_attempt";
}

abbrev stopped : Journal
stopped = record {
  attempts =
      attempt "a1" "t1" "k1" AttemptStatus.running
      ∷ attempt "a2" "t2" "k2" AttemptStatus.assigned
      ∷ attempt "a3" "t3" "k3" AttemptStatus.running
      ∷ [];
  tasks =
      task "t1" TaskStatus.running
      ∷ task "t2" TaskStatus.running
      ∷ task "t3" TaskStatus.running
      ∷ [];
  run_sessions = ("r", "s") ∷ [];
  provider_calls =
      record {
        call_id = "p";
        assignment_id = "A";
        attempt_id = "a3";
        execution_key = "e";
        ordinal = 1;
        status = CallStatus.ambiguous;
        amount_usd = none;
      }
      ∷ [];
  reservations =
      held "r1" "t1" ReservationStatus.reserved
      ∷ held "r2" "t2" ReservationStatus.reserved
      ∷ held "r3" "t3" ReservationStatus.reserved
      ∷ [];
  approvals = record { approval_id = "x"; run_id = "r"; is_pending = true } ∷ [];
}

-- the live attempt goes on; of the lost ones only the certain one gives its reservation back
recovered_ok :
    recover_locked (ok (some ("k1" ∷ []))) "s" stopped
    ≡ ok (
      record {
        interrupted_call_keys = "k2" ∷ "k3" ∷ [];
        pending_approval_ids = "x" ∷ [];
        released_reservation_ids = "r2" ∷ [];
        ambiguous_call_ids = "p" ∷ [];
      },
      record stopped {
        attempts =
            attempt "a1" "t1" "k1" AttemptStatus.running
            ∷ attempt "a2" "t2" "k2" AttemptStatus.interrupted
            ∷ attempt "a3" "t3" "k3" AttemptStatus.interrupted
            ∷ [];
        tasks =
            task "t1" TaskStatus.running
            ∷ task "t2" TaskStatus.returned_to_lead
            ∷ task "t3" TaskStatus.returned_to_lead
            ∷ [];
        reservations =
            held "r1" "t1" ReservationStatus.reserved
            ∷ held "r2" "t2" ReservationStatus.released
            ∷ held "r3" "t3" ReservationStatus.reserved
            ∷ [];
      },
    )
unfolding recover_locked recover both_passes attempt_pass task_pass tasks_of_calls release_orphans
    find_task find_attempt_row get contains add
recovered_ok = refl

no_checkpoint : recover_locked (ok none) "s" stopped ≡ err RecoveryError.checkpoint_unavailable
unfolding recover_locked
no_checkpoint = refl

recover_attempts_example :
    (recover ("k1" ∷ []) "s" stopped).1.attempts
    ≡ map (recovered_attempt ("k1" ∷ []) "s" stopped) stopped.attempts
recover_attempts_example =
    recover_attempts ("k1" ∷ []) "s" stopped ((refl, (refl, tt)), ((refl, tt), (tt, tt)))

recover_tasks-IsAttended_example :
    Moves stopped.tasks (recover ("k1" ∷ []) "s" stopped).1.tasks
    × All (IsAttended ("k1" ∷ []) "s" stopped) (recover ("k1" ∷ []) "s" stopped).1.tasks
recover_tasks-IsAttended_example = recover_tasks-IsAttended ("k1" ∷ []) "s" stopped

recover_reservations_example :
    (recover ("k1" ∷ []) "s" stopped).1.reservations
    ≡ map
        (λ r.
          released_if
            (is_released
              (tasks_of_calls stopped (keep (is_ambiguous_call stopped "s") stopped.provider_calls))
              (both_passes ("k1" ∷ []) "s" stopped).orphan_task_ids
              r)
            r)
        stopped.reservations
recover_reservations_example = recover_reservations ("k1" ∷ []) "s" stopped
