-- ===== src/Sessions/Recovery/Tasks.antt =====
-- The tasks that a recovery leaves running.
use mathlib.Core.List.{Memᴰ}
use skail.Prelude.{
  String, ◌≡◌, refl, sym, ap, subst, ◌∙◌, inl, inr, Bool, true, false, ◌&&◌, ◌||◌, not, List, [],
  ◌∷◌, map, arith, str_eq, eq_refl, if◌then◌else◌, keep, any, All, Bool-cases, Mem-cases,
}
use skail.Prelude.Sets.{contains, contains-add}
use skail.Sessions.Recovery.Tables.{AttemptRow, TaskRow, Journal, is_running, run_in_session}
use skail.Sessions.Recovery.Passes.{
  return_to_lead, Pass, is_open_attempt, attempt_pass, attempt_step, protected, lost_attempt,
  task_pass, task_step, note_orphan, both_passes, initial_pass, recover,
}
use skail.Sessions.Recovery.Moves.{Moves, Moves-trans, attempt_pass-Moves, task_pass-Moves}
use skail.Sessions.Recovery.Attempts.{map-map, map-id, any-keep}

module _ (protected_ids : List String) where
  -- what the pass over the running tasks does to one task
  abbrev after_task : TaskRow → TaskRow → TaskRow
  after_task r t = if contains protected_ids r.task_id then t else return_to_lead r.task_id t

  abbrev after_tasks : List TaskRow → TaskRow → TaskRow
  after_tasks [] t = t
  after_tasks (r ∷ rows) t = after_tasks rows (after_task r t)

  task_step-tasks :
      (r : TaskRow) (p : Pass)
      → p.protected_task_ids ≡ protected_ids
      → ((task_step r p).tasks ≡ map (after_task r) p.tasks)
        × ((task_step r p).protected_task_ids ≡ protected_ids)
  task_step-tasks r p e =
      subst
        (λ ids.
          ((stepped (contains ids r.task_id)).tasks ≡ map (after_task r) p.tasks)
          × ((stepped (contains ids r.task_id)).protected_task_ids ≡ protected_ids))
        (sym e) (by_case (contains protected_ids r.task_id))
    where
      stepped : Bool → Pass
      stepped b =
          if b
          then p
          else record (note_orphan r p) { tasks = map (return_to_lead r.task_id) p.tasks }

      noted : (note_orphan r p).protected_task_ids ≡ p.protected_task_ids
      noted = ground arith

      by_case :
          (b : Bool)
          → ((stepped b).tasks ≡ map (λ t. if b then t else return_to_lead r.task_id t) p.tasks)
            × ((stepped b).protected_task_ids ≡ protected_ids)
      by_case true = (sym (map-id p.tasks), e)
      by_case false = (refl, noted ∙ e)

  task_pass-tasks :
      (rows : List TaskRow) (p : Pass)
      → p.protected_task_ids ≡ protected_ids
      → (task_pass rows p).tasks ≡ map (after_tasks rows) p.tasks
  unfolding task_pass
  task_pass-tasks [] p e = sym (map-id p.tasks)
  task_pass-tasks (r ∷ rows) p e =
      let (tasks, same) = task_step-tasks r p e in
      task_pass-tasks rows (task_step r p) same
      ∙ ap (map (after_tasks rows)) tasks
      ∙ map-map (after_tasks rows) (after_task r) p.tasks

  abbrev returns : TaskRow → TaskRow → Bool
  returns t r = not (contains protected_ids r.task_id) && str_eq t.task_id r.task_id

  -- A task that is still running was so before, and none of the rows has returned it.
  abbrev IsSpared : List TaskRow → TaskRow → Type 0
  IsSpared rows t =
      is_running (after_tasks rows t).status ≡ true
      → (any (returns t) rows ≡ false) × (after_tasks rows t ≡ t)

  after_task-kept :
      (r t : TaskRow)
      → is_running (after_task r t).status ≡ true
      → (returns t r ≡ false) × (after_task r t ≡ t)
  after_task-kept r t h = (ground (arith, h), ground (arith, h))

  after_tasks-stopped :
      (rows : List TaskRow) (t : TaskRow)
      → is_running t.status ≡ false
      → is_running (after_tasks rows t).status ≡ false
  after_tasks-stopped [] t h = h
  after_tasks-stopped (r ∷ rows) t h = after_tasks-stopped rows (after_task r t) (ground (arith, h))

  after_tasks-IsSpared : (rows : List TaskRow) (t : TaskRow) → IsSpared rows t
  after_tasks-IsSpared [] t h = (refl, refl)
  after_tasks-IsSpared (r ∷ rows) t h = elim (Bool-cases (is_running (after_task r t).status)) [
    | inr stopped ↦ let g = after_tasks-stopped rows (after_task r t) stopped in cc
    | inl runs ↦
        let (here, same) = after_task-kept r t runs in
        let (later, kept) = after_tasks-IsSpared rows (after_task r t) h in
        (
          ground (arith, here, ap (λ (x : TaskRow). any (returns x) rows) (sym same) ∙ later),
          kept ∙ same,
        )
  ]

abbrev holds_task : List String → String → AttemptRow → Bool
holds_task live_keys task_id a = contains live_keys a.idempotency_key && str_eq a.task_id task_id

-- The protected tasks are those of the rows whose key is live.
attempt_pass-protects :
    (live_keys : List String) (rows : List AttemptRow) (p : Pass) (id : String)
    → contains (attempt_pass live_keys rows p).protected_task_ids id
      ≡ (contains p.protected_task_ids id || any (holds_task live_keys id) rows)
unfolding attempt_pass
attempt_pass-protects live_keys [] p id = ground arith
attempt_pass-protects live_keys (r ∷ rows) p id =
    attempt_pass-protects live_keys rows (attempt_step live_keys r p) id
    ∙ ap (λ b. b || any (holds_task live_keys id) rows)
        (stepped (contains live_keys r.idempotency_key))
    ∙ regrouped (contains p.protected_task_ids id) _ _
  where
    stepped :
        (b : Bool)
        → contains (if b then protected r p else lost_attempt r p).protected_task_ids id
          ≡ (contains p.protected_task_ids id || (b && str_eq r.task_id id))
    stepped true = ground (arith, contains-add p.protected_task_ids r.task_id id)
    stepped false = ground arith

    regrouped : (a b c : Bool) → (a || b) || c ≡ a || (b || c)
    regrouped a b c = ground arith

any_member :
    {A : Type 0} (p : A → Bool) (xs : List A) (x : A) → Memᴰ x xs → p x ≡ true → any p xs ≡ true
any_member p [] x m h = elim m [ ]
any_member p (y ∷ xs) x m h =
    Mem-cases (λ same. ground (arith, ap p (sym same) ∙ h))
      (λ later. ground (arith, any_member p xs x later h)) m

All_members : {A : Type 0} (P : A → Type 0) (xs : List A) → ((x : A) → Memᴰ x xs → P x) → All P xs
All_members P [] f = tt
All_members P (x ∷ xs) f = (f x (Memᴰ.head refl), All_members P xs (λ y m. f y (Memᴰ.tail m)))

All-map :
    {A B : Type 0} (P : B → Type 0) (f : A → B) (xs : List A)
    → All (λ x. P (f x)) xs
    → All P (map f xs)
All-map P f [] h = tt
All-map P f (x ∷ xs) h = (h.0, All-map P f xs h.1)

-- An open attempt with a live key stands for the task.
abbrev is_attended : List String → String → Journal → String → Bool
is_attended live_keys session_id j task_id =
    any (λ a. is_open_attempt j session_id a && holds_task live_keys task_id a) j.attempts

-- A task of the session that still runs is attended.
abbrev pub IsAttended : List String → String → Journal → TaskRow → Type 0
IsAttended live_keys session_id j t =
    is_running t.status ≡ true
    → run_in_session j session_id t.run_id ≡ true
    → is_attended live_keys session_id j t.task_id ≡ true

abbrev is_open_task : String → Journal → TaskRow → Bool
is_open_task session_id j t = is_running t.status && run_in_session j session_id t.run_id

module _ (live_keys : List String) (session_id : String) (j : Journal) where
  -- the pass over the attempts, and its protected tasks
  abbrev first_pass : Pass
  first_pass =
      attempt_pass live_keys (keep (is_open_attempt j session_id) j.attempts) (initial_pass j)

  abbrev spared_ids : List String
  spared_ids = first_pass.protected_task_ids

  spared_attended :
      (id : String) → contains spared_ids id ≡ true → is_attended live_keys session_id j id ≡ true
  unfolding contains
  spared_attended id h =
      sym (any-keep (holds_task live_keys id) (is_open_attempt j session_id) j.attempts)
      ∙ sym (
          attempt_pass-protects live_keys (keep (is_open_attempt j session_id) j.attempts)
            (initial_pass j) id)
      ∙ h

  -- An unprotected open task would have been returned by its own row.
  returned_itself :
      (t : TaskRow)
      → Memᴰ t first_pass.tasks
      → is_open_task session_id j t ≡ true
      → contains spared_ids t.task_id ≡ false
      → any (returns spared_ids t) (keep (is_open_task session_id j) first_pass.tasks) ≡ true
  returned_itself t m is_open unprotected =
      any-keep (returns spared_ids t) (is_open_task session_id j) first_pass.tasks
      ∙ any_member (λ r. is_open_task session_id j r && returns spared_ids t r) first_pass.tasks t m
          (ground (arith, is_open, unprotected, eq_refl t.task_id))

  still-IsAttended :
      (t : TaskRow)
      → Memᴰ t first_pass.tasks
      → IsAttended live_keys session_id j
          (after_tasks spared_ids (keep (is_open_task session_id j) first_pass.tasks) t)
  still-IsAttended t m runs here =
      let rows = keep (is_open_task session_id j) first_pass.tasks in
      let (none_returned, kept) = after_tasks-IsSpared spared_ids rows t runs in
      let is_open =
        both (ap (λ (x : TaskRow). is_running x.status) (sym kept) ∙ runs)
          (ap (λ (x : TaskRow). run_in_session j session_id x.run_id) (sym kept) ∙ here) in
      ap (λ (x : TaskRow). is_attended live_keys session_id j x.task_id) kept
      ∙ elim (Bool-cases (contains spared_ids t.task_id)) [
        | inl spared ↦ spared_attended t.task_id spared
        | inr unprotected ↦ let g = returned_itself t m is_open unprotected in cc
      ]
    where
      both : {a b : Bool} → a ≡ true → b ≡ true → a && b ≡ true
      both e f = ground (arith, e, f)

IsAttended-after :
    (live_keys : List String) (session_id : String) (j : Journal)
    → All (IsAttended live_keys session_id j) (recover live_keys session_id j).1.tasks
unfolding recover both_passes
IsAttended-after live_keys session_id j =
    let p = first_pass live_keys session_id j in
    let ids = p.protected_task_ids in
    let rows = keep (is_open_task session_id j) p.tasks in
    subst (All (IsAttended live_keys session_id j)) (sym (task_pass-tasks ids rows p refl)) (
      All-map (IsAttended live_keys session_id j) (after_tasks ids rows) p.tasks (
        All_members (λ t. IsAttended live_keys session_id j (after_tasks ids rows t)) p.tasks
          (still-IsAttended live_keys session_id j)))

-- A recovery leaves each task as it was, or returns it to the lead when it was running; and each task
-- of the session that is still running afterwards has an assigned or running attempt whose key is
-- live in the checkpoint.
pub recover_tasks-IsAttended :
    (live_keys : List String) (session_id : String) (j : Journal)
    → Moves j.tasks (recover live_keys session_id j).1.tasks
      × All (IsAttended live_keys session_id j) (recover live_keys session_id j).1.tasks
unfolding recover both_passes
recover_tasks-IsAttended live_keys session_id j = (
  Moves-trans
      (attempt_pass-Moves live_keys (keep (is_open_attempt j session_id) j.attempts)
        (initial_pass j))
      (task_pass-Moves _ (first_pass live_keys session_id j)),
  IsAttended-after live_keys session_id j,
)
