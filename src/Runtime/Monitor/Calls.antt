-- ===== src/Runtime/Monitor/Calls.antt =====
-- How many calls the budget of a run starts.
use skail.Prelude.{ℕ, zero, suc, ◌+◌, ◌-◌, ◌≡◌, arith, min, Result, ok, err, leb, if◌then◌else◌}
use skail.Runtime.Monitor.{RunModelCallBudget, CallLimitError, call_budget, begin_call}

-- `n` calls are attempted: the budget they leave, and how many were started.
abbrev keep_going :
    RunModelCallBudget → Result CallLimitError RunModelCallBudget → RunModelCallBudget
keep_going b (ok b') = b'
keep_going b (err e) = b

abbrev pub attempts : ℕ → RunModelCallBudget → RunModelCallBudget
attempts zero b = b
attempts (suc n) b = attempts n (keep_going b (begin_call b))

attempts_started :
    (n : ℕ) (b : RunModelCallBudget)
    → ((attempts n b).calls_started ≡ b.calls_started + min n (b.max_calls - b.calls_started))
      × ((attempts n b).max_calls ≡ b.max_calls)
unfolding begin_call
attempts_started zero b = ground arith
attempts_started (suc n) b = ground (arith, attempts_started n (keep_going b (begin_call b)))

-- Of n calls attempted on a new budget, exactly as many are started as the limit leaves: all n,
-- or what was missing to the limit; the next call is refused exactly when the limit is reached, and
-- otherwise counted.
attempts_bounded :
    (n max_calls started : ℕ) {b : RunModelCallBudget}
    → call_budget max_calls started ≡ ok b
    → ((attempts n b).calls_started ≡ started + min n (max_calls - started))
      × (begin_call (attempts n b) ≡ (
          if leb max_calls (started + n)
          then err (CallLimitError.limit_exceeded max_calls)
          else ok (record { max_calls = max_calls; calls_started = started + n + 1 })))
unfolding call_budget begin_call
attempts_bounded n max_calls started {b} h = ground (arith, attempts_started n b)
