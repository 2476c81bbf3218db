-- ===== src/Runtime/Monitor.antt =====
-- src/skail/runtime/failure_monitor.py: the budget of model calls of a run, and the monitor that
-- stops a run which repeats a call or an error. Counts, seconds and micro-dollars are numbers; the
-- redactor, the JSON encoder and the regular expression are parameters.
pub mod Calls
pub mod Answers
use skail.Prelude.{
  ℕ, zero, suc, ◌+◌, String, Bool, true, false, ◌&&◌, ◌||◌, not, Option, none, some, List, [], ◌∷◌,
  ◌++◌, ◌==◌, str_eq, str_append, if◌then◌else◌, ltb, leb, all, length, Result, ok, err,
}
use skail.Prelude.Dict.{Dict, put, count_of}

pub data CallLimitError : Type 0 where
  limit_invalid : CallLimitError
  limit_exceeded : ℕ → CallLimitError

pub record RunModelCallBudget : Type 0 where
  pub max_calls : ℕ
  pub calls_started : ℕ

-- a negative `calls_started` is refused by the type
unfoldable pub call_budget : ℕ → ℕ → Result CallLimitError RunModelCallBudget
call_budget max_calls calls_started =
    if ltb max_calls 1
    then err CallLimitError.limit_invalid
    else ok (record { max_calls = max_calls; calls_started = calls_started })

unfoldable pub begin_call : RunModelCallBudget → Result CallLimitError RunModelCallBudget
begin_call b =
    if leb b.max_calls b.calls_started
    then err (CallLimitError.limit_exceeded b.max_calls)
    else ok (record b { calls_started = b.calls_started + 1 })

pub data Failure : Type 0 where
  repeated_call repeated_error consecutive_errors : Failure
  model_calls_exhausted time_exhausted budget_exhausted : Failure

pub record FailureMonitor : Type 0 where
  pub calls : List String
  pub error_counts : Dict ℕ
  pub consecutive_errors : ℕ
  pub max_calls : Option ℕ
  pub max_seconds : Option ℕ
  pub max_budget_usd : Option ℕ

unfoldable pub monitor : Option ℕ → Option ℕ → Option ℕ → FailureMonitor
monitor max_calls max_seconds max_budget_usd = record {
  calls = [];
  error_counts = [];
  consecutive_errors = 0;
  max_calls = max_calls;
  max_seconds = max_seconds;
  max_budget_usd = max_budget_usd;
}

-- `deque(maxlen=3).append(x)`: a full deque drops its oldest entry
unfoldable pub append_bounded : List String → String → List String
append_bounded [] x = x ∷ []
append_bounded (y ∷ ys) x = if leb 3 (length (y ∷ ys)) then ys ++ x ∷ [] else y ∷ ys ++ x ∷ []

-- `len(xs) == 3 and len(set(xs)) == 1`
unfoldable pub is_thrice : List String → Bool
is_thrice [] = false
is_thrice (x ∷ xs) = length (x ∷ xs) == 3 && all (str_eq x) xs

unfoldable check_limits : FailureMonitor → ℕ → ℕ → ℕ → Option Failure
check_limits m calls elapsed_seconds spent_usd =
    if reaches m.max_calls calls
    then some Failure.model_calls_exhausted
    else if reaches m.max_seconds elapsed_seconds
    then some Failure.time_exhausted
    else if reaches m.max_budget_usd spent_usd
    then some Failure.budget_exhausted
    else none
  where
    reaches : Option ℕ → ℕ → Bool
    reaches none n = false
    reaches (some limit) n = leb limit n

module _ {A E : Type 0} (canonical : A → String) (normalize : E → String) where
  -- `_canonical(arguments, redactor)` and `_normalize_error(redactor.scrub(str(error)))`
  unfoldable pub observe_call : FailureMonitor → String → A → Bool → FailureMonitor × Option Failure
  observe_call m name arguments executed =
      let value = str_append (str_append name ":") (canonical arguments) in
      let calls = append_bounded m.calls value in
      if not executed then (m, none) else (
        record m { calls = calls },
        if is_thrice calls then some Failure.repeated_call else none,
      )

  -- `f"{tool}:{value}" if tool else value`, where an absent and an empty tool count as none
  abbrev pub error_key : Option String → E → String
  error_key none error = normalize error
  error_key (some tool) error =
      if str_eq tool "" then normalize error else str_append (str_append tool ":") (normalize error)

  unfoldable pub observe_error :
      FailureMonitor → E → Bool → Option String → FailureMonitor × Option Failure
  observe_error m error blocked tool =
      let key = error_key tool error in
      let streak = m.consecutive_errors + 1 in
      let count = count_of m.error_counts key + 1 in
      if blocked then (record m { consecutive_errors = 0 }, none) else (
        record m { consecutive_errors = streak; error_counts = put m.error_counts key count },
        if leb 2 count
            then some Failure.repeated_error
            else if leb 2 streak
            then some Failure.consecutive_errors
            else none,
      )

unfoldable pub observe_success : FailureMonitor → FailureMonitor
observe_success m = record m { consecutive_errors = 0; calls = [] }

unfoldable pub discard_call_window : FailureMonitor → FailureMonitor
discard_call_window m = record m { calls = [] }

unfoldable pub observe_progress : FailureMonitor → FailureMonitor
observe_progress m = record m { consecutive_errors = 0 }
