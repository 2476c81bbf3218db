-- ===== src/Routing/Usage/Tables.antt =====
-- The tables of provider calls (src/skail/sessions/schema.py), and their queries.
use skail.Prelude.{
  ℕ, String, Bool, false, Option, none, some, List, [], ◌∷◌, str_eq, ◌==◌, if◌then◌else◌,
}
use skail.Prelude.Dict.{get}
use skail.Routing.Assignment.Tables.{AssignmentRow, AttemptRow, Store}
use skail.Routing.Assignment.Lookups.{find_assignment, find_attempt}

pub data CallStatus : Type 0 where
  started completed ambiguous rejected : CallStatus

abbrev status_position : CallStatus → ℕ
status_position started = 0
status_position completed = 1
status_position ambiguous = 2
status_position rejected = 3

abbrev pub call_eq : CallStatus → CallStatus → Bool
call_eq a b = status_position a == status_position b

-- a row of `provider_calls`
pub record ProviderCall : Type 0 where
  pub call_id : String
  pub assignment_id : String
  pub attempt_id : String
  pub execution_key : String
  pub ordinal : ℕ
  pub status : CallStatus
  pub amount_usd : Option ℕ

-- a row of `accounting_reconciliation_failures`; `is_estimated` is status "estimated", not "open"
pub record Failure : Type 0 where
  pub assignment_id : String
  pub call_id : Option String
  pub is_estimated : Bool

-- a row of `assignment_call_usage`
pub record CallUsage : Type 0 where
  pub assignment_id : String
  pub call_id : String
  pub input_tokens : ℕ
  pub output_tokens : ℕ
  pub cached_input_tokens : ℕ
  pub amount_usd : ℕ
  pub authoritative : Bool
  pub cost_known : Bool

pub record UsageStore : Type 0 where
  pub service : Store
  pub calls : List ProviderCall
  pub failures : List Failure
  pub usages : List CallUsage

pub data UsageError : Type 0 where
  unknown_row : String → UsageError
  replay_blocked : CallStatus → UsageError
  pending_reconciliation budget_exhausted no_funded_reservation integrity_error : UsageError
  not_reclassified not_definitive late_usage usage_conflict : UsageError
  not_ambiguous no_failure_record no_priced_estimate reservation_missing : UsageError
  settled_without_reconciliation settlement_failed : UsageError

-- `JOIN attempts ... JOIN tasks`: the run of an assignment
abbrev run_of_attempt : Store → Option AttemptRow → Option String
run_of_attempt st none = none
run_of_attempt st (some a) = get st.task_runs a.task_id

abbrev run_of_row : Store → Option AssignmentRow → Option String
run_of_row st none = none
run_of_row st (some a) = run_of_attempt st (find_attempt a.attempt_id st.attempts)

unfoldable pub run_of : Store → String → Option String
run_of st assignment_id = run_of_row st (find_assignment assignment_id st.assignments)

abbrev pub is_run : String → Option String → Bool
is_run run_id none = false
is_run run_id (some r) = str_eq r run_id

-- `WHERE call_id=?`
unfoldable pub find_call : String → List ProviderCall → Option ProviderCall
find_call id [] = none
find_call id (c ∷ calls) = if str_eq c.call_id id then some c else find_call id calls

-- `UPDATE provider_calls SET status=?, amount_usd=? WHERE call_id=?`
unfoldable pub set_call : String → CallStatus → Option ℕ → List ProviderCall → List ProviderCall
set_call id s amount [] = []
set_call id s amount (c ∷ calls) =
    (if str_eq c.call_id id then record c { status = s; amount_usd = amount } else c)
    ∷ set_call id s amount calls

abbrev pub is_call : String → Option String → Bool
is_call id none = false
is_call id (some c) = str_eq c id

-- `LEFT JOIN accounting_reconciliation_failures f ON f.call_id=c.call_id`
unfoldable pub find_failure : String → List Failure → Option Failure
find_failure id [] = none
find_failure id (f ∷ failures) = if is_call id f.call_id then some f else find_failure id failures
