-- ===== src/Domain/Tasks/Lifecycle.antt =====
-- The lifecycle of a task as a relation, and `transition_task` against it.
use skail.Prelude.{ℕ, ◌≡◌, ◌↔◌, ◌⊎◌, inl, inr, refl, true, arith, ok}
use skail.Domain.Tasks.{
  TaskStatus, proposed, queued, running, succeeded, failed, returned_to_lead, blocked,
  budget_blocked, cancelled, is_terminal, transition_task,
}

-- The edges of the lifecycle, the number of the attempt included.
pub data Step : TaskStatus → TaskStatus → ℕ → Type 0 where
  enqueue : {n : ℕ} → Step proposed queued n
  refuse : {n : ℕ} → Step proposed blocked n
  start : {n : ℕ} → Step queued running n
  block_queued : {n : ℕ} → Step queued blocked n
  cancel_queued : {n : ℕ} → Step queued cancelled n
  succeed : {n : ℕ} → Step running succeeded n
  fail : {n : ℕ} → Step running failed n
  give_back : {n : ℕ} → Step running returned_to_lead n
  block_running : {n : ℕ} → Step running blocked n
  exhaust_budget : {n : ℕ} → Step running budget_blocked n
  cancel_running : {n : ℕ} → Step running cancelled n
  retry : {n : ℕ} → n ≡ 1 → Step failed queued n
  give_up : {n : ℕ} → Step failed returned_to_lead n

ruleset edges = (
  enqueue, refuse, start, block_queued, cancel_queued, succeed, fail, give_back, block_running,
  exhaust_budget, cancel_running, retry, give_up,
)

step_of_transition :
    (c t r : TaskStatus) (n : ℕ)
    → transition_task c t n ≡ ok r
    → (r ≡ t) × (Step c t n ⊎ (c ≡ t) × (is_terminal c ≡ true))
unfolding transition_task
step_of_transition proposed t r n h = grind (arith, edges)
step_of_transition _ t r n h = grind (arith, edges)

transition_of_step : (c t : TaskStatus) (n : ℕ) → Step c t n → transition_task c t n ≡ ok t
unfolding transition_task
transition_of_step c t n enqueue = refl
transition_of_step c t n refuse = refl
transition_of_step c t n start = refl
transition_of_step c t n block_queued = refl
transition_of_step c t n cancel_queued = refl
transition_of_step c t n succeed = refl
transition_of_step c t n fail = refl
transition_of_step c t n give_back = refl
transition_of_step c t n block_running = refl
transition_of_step c t n exhaust_budget = refl
transition_of_step c t n cancel_running = refl
transition_of_step c t n (retry first) = ground arith
transition_of_step c t n give_up = refl

transition_of_terminal :
    (c : TaskStatus) (n : ℕ) → is_terminal c ≡ true → transition_task c c n ≡ ok c
unfolding transition_task
transition_of_terminal c n h = ground arith

-- A call of `transition_task` returns exactly when the lifecycle has an edge from the current
-- status to the target, the retry of a failed task under attempt number one only, or when the
-- target is the current status and that is terminal; what it returns is the target.
pub transition_task-iff-Step :
    (c t r : TaskStatus) (n : ℕ)
    → (transition_task c t n ≡ ok r) ↔ ((r ≡ t) × (Step c t n ⊎ (c ≡ t) × (is_terminal c ≡ true)))
transition_task-iff-Step c t r n = (step_of_transition c t r n, back)
  where
    back : (r ≡ t) × (Step c t n ⊎ (c ≡ t) × (is_terminal c ≡ true)) → transition_task c t n ≡ ok r
    back (e, inl s) = rw e (transition_of_step c t n s)
    back (e, inr (same, ended)) = rw (e, ← same) (transition_of_terminal c n ended)

-- A status is terminal exactly when no call of `transition_task` leaves it, whatever the target
-- and the attempt number.
pub is_terminal-iff-absorbing :
    (c : TaskStatus)
    → (is_terminal c ≡ true) ↔ ((t r : TaskStatus) (n : ℕ) → transition_task c t n ≡ ok r → r ≡ c)
unfolding transition_task
is_terminal-iff-absorbing proposed = (λ h t r n e. cc, λ f. cc (f queued queued 1 refl))
is_terminal-iff-absorbing queued = (λ h t r n e. cc, λ f. cc (f running running 1 refl))
is_terminal-iff-absorbing running = (λ h t r n e. cc, λ f. cc (f failed failed 1 refl))
is_terminal-iff-absorbing failed = (λ h t r n e. cc, λ f. cc (f queued queued 1 refl))
is_terminal-iff-absorbing _ = (λ h t r n e. ground arith, λ f. refl)
