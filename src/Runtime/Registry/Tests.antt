-- ===== src/Runtime/Registry/Tests.antt =====
-- The theorems about the registry at single inputs.
use skail.Prelude.{◌≡◌, refl, ◌≤◌, true, false, none, some, [], ◌∷◌, arith, any, str_eq, ok, err}
use skail.Prelude.Dict.{get, put, keys, values, count_of}
use skail.Prelude.Sets.{contains, has_duplicate, add}
use skail.Prelude.Order.{lex, sorted, insert}
use skail.Domain.Tasks.{TaskStatus, is_terminal, transition_task, task_transitions}
use skail.Domain.Graph.{search_all, visit, explore}
use skail.Domain.Graph.Decision.{IsAcyclic}
use skail.Runtime.Registry.{
  TaskSpec, TaskRegistry, ValidationError, registry, put_all, specs_of, dependencies_of, check_spec,
  check_specs, check_cycle, register_many, transition, raise_counts, load_from_journal,
}
use skail.Runtime.Registry.Histories.{registering, moving, loading, stop, next, spent_refused}
use skail.Runtime.Registry.Closed.{terminal_stays}
use skail.Runtime.Registry.Dependencies.{graph, registry-IsAcyclic}

abbrev build : TaskSpec
build = record {
  task_id = "t1";
  parent_task_id = none;
  depth = 1;
  fingerprint = "f1";
  depends_on = [];
}

abbrev test : TaskSpec
test = record build { task_id = "t2"; fingerprint = "f2"; depends_on = "t1" ∷ [] }

abbrev both : TaskRegistry
both = record {
  tasks =
      ("t1", record { spec = build; status = TaskStatus.proposed })
      ∷ ("t2", record { spec = test; status = TaskStatus.proposed })
      ∷ [];
  failed_attempts = [];
  diagnostics = [];
}

both_ok : register_many registry (build ∷ test ∷ []) ≡ ok both
unfolding register_many registry has_duplicate contains check_specs check_spec check_cycle put_all
    specs_of dependencies_of get put keys values sorted insert lex explore search_all visit add
both_ok = refl

registry-IsAcyclic_example : IsAcyclic (graph both)
registry-IsAcyclic_example =
    registry-IsAcyclic (next (registering (build ∷ test ∷ []) both_ok) stop)

abbrev blocked : TaskRegistry
blocked = record both {
  tasks =
      ("t1", record { spec = build; status = TaskStatus.blocked })
      ∷ ("t2", record { spec = test; status = TaskStatus.proposed })
      ∷ [];
}

abbrev queued : TaskRegistry
queued = record blocked {
  tasks =
      ("t1", record { spec = build; status = TaskStatus.blocked })
      ∷ ("t2", record { spec = test; status = TaskStatus.queued })
      ∷ [];
}

queued_ok : transition blocked "t2" TaskStatus.proposed TaskStatus.queued 1 ≡ ok queued
unfolding transition get put transition_task is_terminal task_transitions
queued_ok = refl

-- A batch with a task that depends on a blocked one is refused.
unsuccessful_refused :
    register_many blocked (record test { task_id = "t3"; fingerprint = "f3" } ∷ [])
    ≡ err ValidationError.dependency_unsuccessful
unfolding register_many has_duplicate contains check_specs check_spec put_all specs_of get put
    is_terminal
unsuccessful_refused = refl

blocked_found : get blocked.tasks "t1" ≡ some (record { spec = build; status = TaskStatus.blocked })
unfolding get
blocked_found = refl

blocked_closed : is_terminal TaskStatus.blocked ≡ true
unfolding is_terminal
blocked_closed = refl

terminal_stays_example :
    get queued.tasks "t1" ≡ some (record { spec = build; status = TaskStatus.blocked })
terminal_stays_example =
    terminal_stays "t1" (record { spec = build; status = TaskStatus.blocked })
      (next (moving {r = blocked} "t2" TaskStatus.proposed TaskStatus.queued 1 queued_ok) stop)
      blocked_found blocked_closed

abbrev spent : TaskRegistry
spent = record { tasks = []; failed_attempts = ("f2", 2) ∷ []; diagnostics = [] }

abbrev only_build : TaskRegistry
only_build = record spent {
  tasks = ("t1", record { spec = build; status = TaskStatus.proposed }) ∷ [];
}

only_build_ok : register_many spent (build ∷ []) ≡ ok only_build
unfolding register_many registry has_duplicate contains check_specs check_spec check_cycle put_all
    specs_of dependencies_of get put keys values sorted insert lex explore search_all visit add
only_build_ok = refl

spent_twice : 2 ≤ count_of spent.failed_attempts "f2"
unfolding get
spent_twice = omega arith

spent_refused_example : any (λ s. str_eq s.fingerprint "f2") (build ∷ []) ≡ false
unfolding load_from_journal raise_counts
spent_refused_example =
    spent_refused only_build (build ∷ []) "f2" (next (loading {r = spent} [] []) stop) spent_twice
      only_build_ok
