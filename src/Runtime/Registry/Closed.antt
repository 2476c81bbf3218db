-- ===== src/Runtime/Registry/Closed.antt =====
-- What becomes of a task with a terminal status.
use skail.Prelude.{
  ℕ, String, ◌≡◌, sym, subst, true, false, some, List, [], ◌∷◌, map, arith, any, str_eq, eq_iff,
  Bool-cases, inl, inr, ap,
}
use skail.Prelude.Dict.{Dict, get, has, get-put}
use skail.Domain.Tasks.{TaskStatus, is_terminal}
use skail.Domain.Tasks.Lifecycle.{is_terminal-iff-absorbing}
use skail.Runtime.Registry.{
  TaskSpec, RegisteredTask, TaskRegistry, put_all, proposed_of, load_from_journal,
}
use skail.Runtime.Registry.Histories.{
  Step, Steps, registering, moving, recording, loading, stop, next, register_many_inv, Moved,
  transition_inv, recorded_inv,
}

put_all-fresh :
    (d : Dict RegisteredTask) (specs : List TaskSpec) (id : String) (t : RegisteredTask)
    → any (λ s. has d s.task_id) specs ≡ false
    → get d id ≡ some t
    → (e : Dict RegisteredTask) → get e id ≡ some t
    → get (put_all e (map proposed_of specs)) id ≡ some t
unfolding put_all
put_all-fresh d [] id t new found e kept = kept
put_all-fresh d (s ∷ specs) id t new found e kept =
    put_all-fresh d specs id t (ground (arith, new)) found _ (
      ground (
        arith,
        kept,
        new,
        found,
        eq_iff s.task_id id,
        at_id,
        get-put (proposed_of s).1 s.task_id id e,
      ))
  where
    at_id : s.task_id ≡ id → has d s.task_id ≡ has d id
    at_id same = ap (λ z. has d z) same

Moved-keeps :
    (r r' : TaskRegistry) (id j : String) (target : TaskStatus) (n : ℕ) (t : RegisteredTask)
    → Moved r r' id target n
    → get r.tasks j ≡ some t
    → is_terminal t.status ≡ true
    → get r'.tasks j ≡ some t
Moved-keeps r r' id j target n t m found closed = elim (Bool-cases (str_eq id j)) [
  | inr e ↦
      ground
        (arith, m.tasks, e, found, get-put (record (m.current) { status = m.status }) id j r.tasks)
  | inl e ↦
      let same : id ≡ j = ground (arith, e, eq_iff id j) in
      let here : m.current ≡ t =
        ground (arith, found, subst (λ z. get r.tasks z ≡ some m.current) same m.found) in
      let ended = subst (λ c. is_terminal c.status ≡ true) (sym here) closed in
      let still =
        (is_terminal-iff-absorbing m.current.status).0 ended target m.status n m.accepted in
      ground (
        arith,
        m.tasks,
        e,
        here,
        still,
        get-put (record (m.current) { status = m.status }) id j r.tasks,
      )
]

step_keeps :
    {r r' : TaskRegistry} (j : String) (t : RegisteredTask)
    → Step r r'
    → get r.tasks j ≡ some t
    → is_terminal t.status ≡ true
    → get r'.tasks j ≡ some t
unfolding load_from_journal
step_keeps {r} {r'} j t (registering specs h) found closed =
    let v = register_many_inv r r' specs h in
    subst (λ d. get d j ≡ some t) (sym v.tasks)
      (put_all-fresh r.tasks specs j t v.fresh found r.tasks found)
step_keeps {r} {r'} j t (moving id expected target n h) found closed =
    elim (transition_inv r r' id expected target n h).0 [
      | inl same ↦ subst (λ d. get d j ≡ some t) (sym same) found
      | inr m ↦ Moved-keeps r r' id j target n t m found closed
    ]
step_keeps {r} {r'} j t (recording id n h) found closed =
    subst (λ d. get d j ≡ some t) (sym (recorded_inv r r' id n h).0) found
step_keeps j t (loading attempt_rows task_rows) found closed = found

-- A task with a terminal status keeps it, with its specification, whatever calls of the registry
-- follow.
pub terminal_stays :
    {r r' : TaskRegistry} (id : String) (t : RegisteredTask)
    → Steps r r'
    → get r.tasks id ≡ some t
    → is_terminal t.status ≡ true
    → get r'.tasks id ≡ some t
terminal_stays id t stop found closed = found
terminal_stays id t (next s rest) found closed =
    terminal_stays id t rest (step_keeps id t s found closed) closed
