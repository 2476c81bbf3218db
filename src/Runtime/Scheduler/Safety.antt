-- ===== src/Runtime/Scheduler/Safety.antt =====
-- Histories of scheduler calls: how many children run, and which ones may start.
use skail.Prelude.{
  ℕ, zero, suc, ◌+◌, ◌-◌, ◌≤◌, ◌<◌, String, ◌≡◌, refl, sym, Bool, true, List, [], ◌∷◌, arith,
  length, subst, ok,
}
use skail.Prelude.Int.{ℤ}
use skail.Prelude.Sets.{add, discard}
use skail.Runtime.Scheduler.State.{Scheduler, ready}
use skail.Runtime.Scheduler.Operations.{
  new, submit, finish, cancel, approve, approve_child, retry, started, try_start, is_within,
  Outcome, value, conclude, leave,
}
use skail.Runtime.Scheduler.Blocking.{IsLayered}
use skail.Runtime.Scheduler.Layers.{submit-IsLayered}
use skail.Runtime.Scheduler.Approvals.{approve_child-IsLayered}

-- The calls of submit, finish, cancel, approve and retry, and the parts of any number of calls of
-- `execute`. An `execute` awaits the lock between its `finish` and its `_running.discard`: `concluding`
-- takes both at once, and `finishing` and `leaving` let other calls come between. The batch loop `run`
-- is not among the calls.
pub data Step : Scheduler → Scheduler → Type 0 where
  submitting :
      {s s' : Scheduler} (id : String) (priority : ℤ) (ds : List String) (awaiting : Bool)
      → submit s id priority ds awaiting ≡ ok s'
      → Step s s'
  finishing : {s s' : Scheduler} (id : String) (b : Bool) → finish s id b ≡ ok s' → Step s s'
  cancelling : {s s' : Scheduler} (id : String) → cancel s id ≡ ok s' → Step s s'
  approving : {s s' : Scheduler} (id : String) → approve s id ≡ ok s' → Step s s'
  retrying : {s s' : Scheduler} (id : String) → retry s id ≡ ok s' → Step s s'
  starting : {s s' : Scheduler} (id : String) → try_start s id ≡ ok (started s') → Step s s'
  concluding :
      {s s' : Scheduler} (id : String) (final_failure : Bool) (o : Outcome)
      → conclude s id final_failure o ≡ ok s'
      → Step s s'
  leaving : {s : Scheduler} (id : String) → Step s (leave s id)

pub data Reach : Scheduler → Type 0 where
  first : {s : Scheduler} (n : ℕ) → new n ≡ ok s → Reach s
  next : {s s' : Scheduler} → Reach s → Step s s' → Reach s'

pub record IsSafe (s : Scheduler) : Type 0 where
  pub capped : s.max_children ≤ 3
  pub slots : length s.running ≤ s.max_children
  pub layered : IsLayered s.children

length-add : (xs : List String) (x : String) → length (add xs x) ≤ length xs + 1
unfolding add
length-add xs x = ground arith

length-discard : (xs : List String) (x : String) → length (discard xs x) ≤ length xs
unfolding discard
length-discard [] x = omega arith
length-discard (y ∷ xs) x = ground (arith, length-discard xs x)

is_within_pos : (n : ℕ) (xs : List String) (x : String) → is_within n xs x ≡ true → 0 < n
unfolding is_within
is_within_pos zero [] x h = cc
is_within_pos zero (y ∷ xs) x h = cc
is_within_pos (suc n) xs x h = omega arith

-- A call that leaves the children and the slots alone.
record SameShape (s s' : Scheduler) : Type 0 where
  cap : s'.max_children ≡ s.max_children
  same : s'.children ≡ s.children
  fewer : length s'.running ≤ length s.running

shape-IsSafe : {s s' : Scheduler} → SameShape s s' → IsSafe s → IsSafe s'
shape-IsSafe e v = record {
  capped = omega (arith, e.cap, v.capped);
  slots = omega (arith, e.cap, e.fewer, v.slots);
  layered = subst IsLayered (sym e.same) v.layered;
}

finish_shape : (s s' : Scheduler) (id : String) (b : Bool) → finish s id b ≡ ok s' → SameShape s s'
unfolding finish
finish_shape s s' id b h = ground arith

cancel_shape : (s s' : Scheduler) (id : String) → cancel s id ≡ ok s' → SameShape s s'
unfolding cancel
cancel_shape s s' id h = ground arith

retry_shape : (s s' : Scheduler) (id : String) → retry s id ≡ ok s' → SameShape s s'
unfolding retry
retry_shape s s' id h = ground arith

conclude_shape :
    (s s' : Scheduler) (id : String) (f : Bool) (o : Outcome)
    → conclude s id f o ≡ ok s'
    → SameShape s s'
unfolding conclude finish
conclude_shape s s' id f value h = ground (arith, length-discard s.running id)
conclude_shape s s' id f _ h = ground (arith, length-discard s.running id)

leave_shape : (s : Scheduler) (id : String) → SameShape s (leave s id)
leave_shape s id = record { cap = refl; same = refl; fewer = length-discard s.running id }

pub started_eq :
    (s s' : Scheduler) (id : String)
    → try_start s id ≡ ok (started s')
    → (s' ≡ record s { running = add s.running id })
      × (is_within (s.max_children - length s.running) (ready s) id ≡ true)
unfolding try_start
started_eq s s' id h = ground arith

start-IsSafe :
    (s s' : Scheduler) (id : String) → try_start s id ≡ ok (started s') → IsSafe s → IsSafe s'
start-IsSafe s s' id h v =
    let (e, within) = started_eq s s' id h in
    rw e (record {
      capped = v.capped;
      slots = omega (
        arith,
        length-add s.running id,
        v.slots,
        is_within_pos (s.max_children - length s.running) (ready s) id within,
      );
      layered = v.layered;
    })

submit-IsSafe :
    (s s' : Scheduler) (id : String) (priority : ℤ) (ds : List String) (awaiting : Bool)
    → submit s id priority ds awaiting ≡ ok s'
    → IsSafe s
    → IsSafe s'
submit-IsSafe s s' id priority ds awaiting h v =
    let (layered, cap, running) = submit-IsLayered s s' id priority ds awaiting v.layered h in
    record {
      capped = omega (arith, cap, v.capped);
      slots = rw (cap, running) v.slots;
      layered = layered;
    }

approved_eq :
    (s s' : Scheduler) (id : String)
    → approve s id ≡ ok s'
    → s' ≡ record s { children = approve_child s.children id }
unfolding approve
approved_eq s s' id h = ground arith

approve-IsSafe : (s s' : Scheduler) (id : String) → approve s id ≡ ok s' → IsSafe s → IsSafe s'
approve-IsSafe s s' id h v = rw (approved_eq s s' id h) (record {
  capped = v.capped;
  slots = v.slots;
  layered = approve_child-IsLayered s.children id v.layered;
})

Step-IsSafe : {s s' : Scheduler} → Step s s' → IsSafe s → IsSafe s'
Step-IsSafe {s} {s'} (submitting id p ds a h) v = submit-IsSafe s s' id p ds a h v
Step-IsSafe {s} {s'} (finishing id b h) v = shape-IsSafe (finish_shape s s' id b h) v
Step-IsSafe {s} {s'} (cancelling id h) v = shape-IsSafe (cancel_shape s s' id h) v
Step-IsSafe {s} {s'} (approving id h) v = approve-IsSafe s s' id h v
Step-IsSafe {s} {s'} (retrying id h) v = shape-IsSafe (retry_shape s s' id h) v
Step-IsSafe {s} {s'} (starting id h) v = start-IsSafe s s' id h v
Step-IsSafe {s} (leaving id) v = shape-IsSafe (leave_shape s id) v
Step-IsSafe {s} {s'} (concluding id f o h) v = shape-IsSafe (conclude_shape s s' id f o h) v

nil-IsLayered : IsLayered []
nil-IsLayered = record {
  early = λ c m. elim m [ ];
  upward = λ c d m k w. elim m [ ];
  known = λ c x m w. elim m [ ];
}

new_children : (s : Scheduler) (n : ℕ) → new n ≡ ok s → s.children ≡ []
unfolding new
new_children s n h = ground arith

empty-IsSafe : (s : Scheduler) (n : ℕ) → new n ≡ ok s → IsSafe s
unfolding new
empty-IsSafe s n h = record {
  capped = ground arith;
  slots = ground arith;
  layered = subst IsLayered (sym (new_children s n h)) nil-IsLayered;
}

-- Whatever calls of `submit`, `execute`, `finish`, `cancel`, `approve` and `retry` come on a new
-- scheduler, in any order and with any outcomes but without a call of the batch loop `run`, at most
-- `max_children` children run, and so at most three; and each child depends only on children created
-- before it.
pub Reach-IsSafe : {s : Scheduler} → Reach s → IsSafe s
Reach-IsSafe (first n h) = empty-IsSafe _ n h
Reach-IsSafe (next r st) = Step-IsSafe st (Reach-IsSafe r)
