-- ===== src/Runtime/Registry/Histories.antt =====
-- Histories of registry calls: what each call does, and that failures are not forgotten.
use skail.Prelude.{
  ℕ, ◌+◌, ◌≤◌, String, ◌≡◌, refl, false, some, List, [], ◌∷◌, map, arith, any, max, leb, str_eq,
  eq_iff, Bool-cases, Option-cases, inl, inr, ◌⊎◌, ◌&&◌, ok, ap, Result-cases,
}
use skail.Prelude.Dict.{Dict, get, has, put, get-put, count_of}
use skail.Domain.Tasks.{TaskStatus, status_eq, is_terminal, transition_task}
use skail.Runtime.Registry.{
  TaskSpec, RegisteredTask, TaskRegistry, put_all, combine, check_cycle, proposed_of, register_many,
  transition, record_failed_automatic_attempt, raise_counts, load_from_journal,
}

pub data Step : TaskRegistry → TaskRegistry → Type 0 where
  registering :
      {r r' : TaskRegistry} (specs : List TaskSpec) → register_many r specs ≡ ok r' → Step r r'
  moving :
      {r r' : TaskRegistry} (id : String) (expected target : TaskStatus) (n : ℕ)
      → transition r id expected target n ≡ ok r'
      → Step r r'
  recording :
      {r r' : TaskRegistry} (id : String) (n : ℕ)
      → record_failed_automatic_attempt r id ≡ ok (r', n)
      → Step r r'
  loading :
      {r : TaskRegistry} (attempt_rows : List (String × ℕ)) (task_rows : List String)
      → Step r (load_from_journal r attempt_rows task_rows)

pub data Steps : TaskRegistry → TaskRegistry → Type 0 where
  stop : {r : TaskRegistry} → Steps r r
  next : {r r' r'' : TaskRegistry} → Step r r' → Steps r' r'' → Steps r r''

-- What a registration has checked, and what it does.
pub record Registered (r r' : TaskRegistry) (specs : List TaskSpec) : Type 0 where
  pub fresh : any (λ s. has r.tasks s.task_id) specs ≡ false
  pub allowed : any (λ s. leb 2 (count_of r.failed_attempts s.fingerprint)) specs ≡ false
  pub acyclic : check_cycle (combine r.tasks specs) ≡ ok tt
  pub tasks : r'.tasks ≡ put_all r.tasks (map proposed_of specs)
  pub counts : r'.failed_attempts ≡ r.failed_attempts

pub register_many_inv :
    (r r' : TaskRegistry) (specs : List TaskSpec)
    → register_many r specs ≡ ok r'
    → Registered r r' specs
unfolding register_many
register_many_inv r r' specs h = ground (arith, h)

-- What a transition does: nothing to the tasks, or a step of the lifecycle of one of them.
pub record Moved (r r' : TaskRegistry) (id : String) (target : TaskStatus) (n : ℕ) : Type 0 where
  pub current : RegisteredTask
  pub found : get r.tasks id ≡ some current
  pub status : TaskStatus
  pub accepted : transition_task current.status target n ≡ ok status
  pub tasks : r'.tasks ≡ put r.tasks id (record current { status = status })

pub transition_inv :
    (r r' : TaskRegistry) (id : String) (expected target : TaskStatus) (n : ℕ)
    → transition r id expected target n ≡ ok r'
    → ((r'.tasks ≡ r.tasks) ⊎ Moved r r' id target n) × (r'.failed_attempts ≡ r.failed_attempts)
unfolding transition
transition_inv r r' id expected target n h = elim (Option-cases (get r.tasks id)) [
  | inl e ↦ (inl (ground (arith, h, e)), ground (arith, h, e))
  | inr (current, e) ↦ elim (Result-cases (transition_task current.status target n)) [
    | inr (bad, f) ↦ (inl (ground (arith, h, e, f)), ground (arith, h, e, f))
    | inl (status, f) ↦
        elim (Bool-cases (status_eq current.status target && is_terminal current.status)) [
          | inl same ↦ (inl (ground (arith, h, e, f, same)), ground (arith, h, e, f, same))
          | inr other ↦ (
            inr (record {
              current = current;
              found = e;
              status = status;
              accepted = f;
              tasks = ground (arith, h, e, f, other);
            }),
            ground (arith, h, e, f, other),
          )
        ]
  ]
]

pub recorded_inv :
    (r r' : TaskRegistry) (id : String) (n : ℕ)
    → record_failed_automatic_attempt r id ≡ ok (r', n)
    → (r'.tasks ≡ r.tasks)
      × ((k : String) → count_of r.failed_attempts k ≤ count_of r'.failed_attempts k)
unfolding record_failed_automatic_attempt
recorded_inv r r' id n h = elim (Option-cases (get r.tasks id)) [
  | inl e ↦ (ground (arith, h, e), λ k. ground (arith, h, e))
  | inr (t, e) ↦ (
    ground (arith, h, e),
    λ k. ground (
      arith,
      h,
      e,
      eq_iff t.spec.fingerprint k,
      get-put (count_of r.failed_attempts t.spec.fingerprint + 1) t.spec.fingerprint k
          r.failed_attempts,
    ),
  )
]

raise_counts_le :
    (d : Dict ℕ) (rows : List (String × ℕ)) (k : String)
    → count_of d k ≤ count_of (raise_counts d rows) k
unfolding raise_counts
raise_counts_le d [] k = omega arith
raise_counts_le d ((f, n) ∷ rows) k = ground (
  arith,
  raise_counts_le (put d f (max (count_of d f) n)) rows k,
  eq_iff f k,
  get-put (max (count_of d f) n) f k d,
)

step_counts :
    {r r' : TaskRegistry} (k : String)
    → Step r r'
    → count_of r.failed_attempts k ≤ count_of r'.failed_attempts k
unfolding load_from_journal
step_counts {r} {r'} k (registering specs h) =
    let e = (register_many_inv r r' specs h).counts in ground (arith, e)
step_counts {r} {r'} k (moving id expected target n h) =
    let e = (transition_inv r r' id expected target n h).1 in ground (arith, e)
step_counts {r} {r'} k (recording id n h) = (recorded_inv r r' id n h).1 k
step_counts {r} k (loading attempt_rows task_rows) = omega (
  arith,
  raise_counts_le r.failed_attempts attempt_rows k,
  raise_counts_le (raise_counts r.failed_attempts attempt_rows) (map (λ f. (f, 2)) task_rows) k,
)

Steps-counts :
    {r r' : TaskRegistry} (k : String)
    → Steps r r'
    → count_of r.failed_attempts k ≤ count_of r'.failed_attempts k
Steps-counts k stop = omega arith
Steps-counts k (next s rest) = omega (arith, step_counts k s, Steps-counts k rest)

none_spent :
    (d : Dict ℕ) (k : String) (specs : List TaskSpec)
    → any (λ s. leb 2 (count_of d s.fingerprint)) specs ≡ false
    → 2 ≤ count_of d k
    → any (λ s. str_eq s.fingerprint k) specs ≡ false
none_spent d k [] h e = refl
none_spent d k (s ∷ specs) h e =
    ground (arith, h, e, none_spent d k specs, eq_iff s.fingerprint k, at_k)
  where
    at_k : s.fingerprint ≡ k → count_of d s.fingerprint ≡ count_of d k
    at_k same = ap (λ z. count_of d z) same

-- Once a fingerprint has failed twice, no later registration contains a task with it, whatever
-- calls come between.
pub spent_refused :
    {r r' : TaskRegistry} (r'' : TaskRegistry) (specs : List TaskSpec) (fingerprint : String)
    → Steps r r'
    → 2 ≤ count_of r.failed_attempts fingerprint
    → register_many r' specs ≡ ok r''
    → any (λ s. str_eq s.fingerprint fingerprint) specs ≡ false
spent_refused {r} {r'} r'' specs f steps spent h =
    none_spent r'.failed_attempts f specs (register_many_inv r' r'' specs h).allowed
      (omega (arith, spent, Steps-counts f steps))
