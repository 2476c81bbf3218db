-- ===== src/Sessions/Recovery/Moves.antt =====
-- How the passes of a recovery move the tasks.
use skail.Prelude.{
  String, ◌≡◌, refl, sym, ap, subst, ◌∙◌, ◌⊎◌, inl, inr, Bool, true, false, ◌&&◌, List, [], ◌∷◌,
  map, arith, str_eq, if◌then◌else◌, Bool-cases,
}
use skail.Prelude.Sets.{contains}
use skail.Domain.Tasks.{TaskStatus}
use skail.Sessions.Recovery.Tables.{AttemptRow, TaskRow, is_running}
use skail.Sessions.Recovery.Passes.{
  return_to_lead, Pass, attempt_pass, attempt_step, protected, lost_attempt, task_pass, task_step,
  note_orphan,
}
use skail.Sessions.Recovery.Attempts.{map-map, map-id}

-- A task was left as it was, or it was running and is returned to the lead with the rest of its row.
abbrev pub IsMoved : TaskRow → TaskRow → Type 0
IsMoved t t' =
    (t' ≡ t)
    ⊎ ((is_running t.status ≡ true) × (t' ≡ record t { status = TaskStatus.returned_to_lead }))

pub record Moves (tasks tasks' : List TaskRow) : Type 0 where
  pub move : TaskRow → TaskRow
  pub moved : tasks' ≡ map move tasks
  pub allowed : (t : TaskRow) → IsMoved t (move t)

return_to_lead-IsMoved : (id : String) (t : TaskRow) → IsMoved t (return_to_lead id t)
return_to_lead-IsMoved id t = elim (Bool-cases (str_eq t.task_id id && is_running t.status)) [
  | inl e ↦ inr (ground (arith, e), rw e refl)
  | inr e ↦ inl (rw e refl)
]

IsMoved-trans : (a b c : TaskRow) → IsMoved a b → IsMoved b c → IsMoved a c
IsMoved-trans a b c (inl e) m = subst (λ x. IsMoved x c) e m
IsMoved-trans a b c (inr m) (inl e) = inr (m.0, e ∙ m.1)
IsMoved-trans a b c (inr m) (inr n) =
    let g = ap (λ (x : TaskRow). is_running x.status) (sym m.1) ∙ n.0 in cc

pub Moves-trans : {xs ys zs : List TaskRow} → Moves xs ys → Moves ys zs → Moves xs zs
Moves-trans {xs} m n = record {
  move = λ t. n.move (m.move t);
  moved = n.moved ∙ ap (map n.move) m.moved ∙ map-map n.move m.move xs;
  allowed = λ t. IsMoved-trans t (m.move t) _ (m.allowed t) (n.allowed (m.move t));
}

none-Moves : (xs : List TaskRow) → Moves xs xs
none-Moves xs = record { move = λ t. t; moved = sym (map-id xs); allowed = λ t. inl refl }

one-Moves : (id : String) (xs : List TaskRow) → Moves xs (map (return_to_lead id) xs)
one-Moves id xs = record {
  move = return_to_lead id;
  moved = refl;
  allowed = return_to_lead-IsMoved id;
}

pub attempt_pass-Moves :
    (live_keys : List String) (rows : List AttemptRow) (p : Pass)
    → Moves p.tasks (attempt_pass live_keys rows p).tasks
unfolding attempt_pass
attempt_pass-Moves live_keys [] p = none-Moves p.tasks
attempt_pass-Moves live_keys (r ∷ rows) p =
    Moves-trans (stepped (contains live_keys r.idempotency_key))
      (attempt_pass-Moves live_keys rows (attempt_step live_keys r p))
  where
    stepped : (b : Bool) → Moves p.tasks (if b then protected r p else lost_attempt r p).tasks
    stepped true = none-Moves p.tasks
    stepped false = one-Moves r.task_id p.tasks

pub task_pass-Moves : (rows : List TaskRow) (p : Pass) → Moves p.tasks (task_pass rows p).tasks
unfolding task_pass
task_pass-Moves [] p = none-Moves p.tasks
task_pass-Moves (r ∷ rows) p =
    Moves-trans (stepped (contains p.protected_task_ids r.task_id))
      (task_pass-Moves rows (task_step r p))
  where
    stepped :
        (b : Bool)
        → Moves p.tasks
            (if b then p else record (note_orphan r p) {
              tasks = map (return_to_lead r.task_id) p.tasks;
            }).tasks
    stepped true = none-Moves p.tasks
    stepped false = one-Moves r.task_id p.tasks
