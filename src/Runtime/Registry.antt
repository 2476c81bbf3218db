-- ===== src/Runtime/Registry.antt =====
-- src/skail/runtime/task_registry.py: `TaskRegistry`, the identities, dependencies and statuses of
-- the tasks of a run. The rows that `load_from_journal` selects are arguments.
pub mod Histories
pub mod Closed
pub mod Dependencies
mod Tests
use skail.Prelude.{
  ℕ, zero, suc, ◌+◌, String, Bool, true, false, ◌&&◌, ◌||◌, not, Option, none, some, List, [], ◌∷◌,
  ◌++◌, map, any, max, leb, ◌==◌, str_eq, if◌then◌else◌, Result, ok, err, ◌>>=◌, ◌>>◌, raise_if,
}
use skail.Prelude.Dict.{Dict, get, has, put, values, keys, count_of}
use skail.Prelude.Sets.{contains, has_duplicate}
use skail.Prelude.Order.{sorted, by_key, lex, codes}
use skail.Prelude.Int.{ltb_ℤ}
use skail.Domain.Tasks.{TaskStatus, status_eq, is_terminal, transition_task, TransitionError}
use skail.Domain.Graph.{Graph, Search, explore}

-- The fields of a `TaskSpec` and its request that the registry reads.
pub record TaskSpec : Type 0 where
  pub task_id : String
  pub parent_task_id : Option String
  pub depth : ℕ
  pub fingerprint : String
  pub depends_on : List String

pub record RegisteredTask : Type 0 where
  pub spec : TaskSpec
  pub status : TaskStatus

pub record TaskRegistry : Type 0 where
  pub tasks : Dict RegisteredTask
  pub failed_attempts : Dict ℕ
  pub diagnostics : List String

unfoldable pub registry : TaskRegistry
registry = record { tasks = []; failed_attempts = []; diagnostics = [] }

pub data ValidationError : Type 0 where
  id_duplicate fingerprint_exhausted dependency_self dependency_missing : ValidationError
  depth_invalid parent_missing dependency_unsuccessful dependency_cycle : ValidationError
  fingerprint_duplicate unknown state_conflict transition_invalid : ValidationError
  attempt_not_failed key_error out_of_fuel : ValidationError

-- `d.update({key(x): x for x in xs})`
unfoldable pub put_all : {V : Type 0} → Dict V → List (String × V) → Dict V
put_all d [] = d
put_all d (x ∷ xs) = put_all (put d x.0 x.1) xs

unfoldable pub specs_of : Dict RegisteredTask → Dict TaskSpec
specs_of [] = []
specs_of ((k, t) ∷ d) = (k, t.spec) ∷ specs_of d

abbrev pub by_id : TaskSpec → String × TaskSpec
by_id s = (s.task_id, s)

-- `combined`
abbrev pub combine : Dict RegisteredTask → List TaskSpec → Dict TaskSpec
combine d specs = put_all (specs_of d) (map by_id specs)

-- The dependencies, as the search reads them.
unfoldable pub dependencies_of : Dict TaskSpec → Graph
dependencies_of [] = []
dependencies_of ((k, s) ∷ d) = (k, s.depends_on) ∷ dependencies_of d

abbrev is_unsuccessful : Option RegisteredTask → Bool
is_unsuccessful none = false
is_unsuccessful (some t) = is_terminal t.status && not (status_eq t.status TaskStatus.succeeded)

abbrev check_depth : TaskSpec → Option TaskSpec → Result ValidationError (Unit {0})
check_depth s none = err ValidationError.parent_missing
check_depth s (some parent) =
    raise_if (not (s.depth == parent.depth + 1)) ValidationError.depth_invalid

abbrev check_parent : Dict TaskSpec → TaskSpec → Option String → Result ValidationError (Unit {0})
check_parent combined s none = raise_if (not (s.depth == 1)) ValidationError.depth_invalid
check_parent combined s (some parent) = check_depth s (get combined parent)

-- The body of the loop over the new tasks.
unfoldable pub check_spec :
    Dict RegisteredTask → Dict TaskSpec → TaskSpec → Result ValidationError (Unit {0})
check_spec tasks combined s =
    raise_if (contains s.depends_on s.task_id) ValidationError.dependency_self
    >> raise_if (any (λ d. not (has combined d)) s.depends_on) ValidationError.dependency_missing
    >> check_parent combined s s.parent_task_id
    >> raise_if (any (λ d. is_unsuccessful (get tasks d)) s.depends_on)
        ValidationError.dependency_unsuccessful

unfoldable pub check_specs :
    Dict RegisteredTask → Dict TaskSpec → List TaskSpec → Result ValidationError (Unit {0})
check_specs tasks combined [] = ok tt
check_specs tasks combined (s ∷ specs) =
    check_spec tasks combined s >> check_specs tasks combined specs

-- `_has_dependency_cycle`
abbrev pub has_cycle : Search → Result ValidationError (Unit {0})
has_cycle (Search.done visited) = ok tt
has_cycle Search.cyclic = err ValidationError.dependency_cycle
has_cycle Search.missing = err ValidationError.key_error
has_cycle Search.exhausted = err ValidationError.out_of_fuel

abbrev pub text_lt : String → String → Bool
text_lt = by_key (lex ltb_ℤ) codes

unfoldable pub check_cycle : Dict TaskSpec → Result ValidationError (Unit {0})
check_cycle combined =
    has_cycle (explore (dependencies_of combined) (sorted text_lt (keys combined)))

abbrev fingerprints_of : Dict RegisteredTask → List String
fingerprints_of d = map (λ t. t.spec.fingerprint) (values d)

abbrev pub proposed_of : TaskSpec → String × RegisteredTask
proposed_of s = (s.task_id, record { spec = s; status = TaskStatus.proposed })

unfoldable pub register_many : TaskRegistry → List TaskSpec → Result ValidationError TaskRegistry
register_many r specs =
    raise_if (has_duplicate (map (λ s. s.task_id) specs) || any (λ s. has r.tasks s.task_id) specs)
      ValidationError.id_duplicate
    >> raise_if (any (λ s. leb 2 (count_of r.failed_attempts s.fingerprint)) specs)
        ValidationError.fingerprint_exhausted
    >> check_specs r.tasks (combine r.tasks specs) specs
    >> check_cycle (combine r.tasks specs)
    >> raise_if
        (has_duplicate (map (λ s. s.fingerprint) specs)
          || any (λ s. contains (fingerprints_of r.tasks) s.fingerprint) specs)
        ValidationError.fingerprint_duplicate
    >> ok (record r { tasks = put_all r.tasks (map proposed_of specs) })

-- `transition_task`, whose errors become `task.transition_invalid`
abbrev accepted_status : Result TransitionError TaskStatus → Result ValidationError TaskStatus
accepted_status (ok s) = ok s
accepted_status (err e) = err ValidationError.transition_invalid

unfoldable pub transition :
    TaskRegistry → String → TaskStatus → TaskStatus → ℕ → Result ValidationError TaskRegistry
transition r id expected target attempt_number = elim (get r.tasks id) [
  | none ↦ err ValidationError.unknown
  | some current ↦
      if not (status_eq current.status expected)
      then err ValidationError.state_conflict
      else if status_eq current.status target && is_terminal current.status
      then ok (record r { diagnostics = r.diagnostics ++ id ∷ [] })
      else accepted_status (transition_task current.status target attempt_number) >>= λ status.
          ok (record r { tasks = put r.tasks id (record current { status = status }) })
]

unfoldable pub record_failed_automatic_attempt :
    TaskRegistry → String → Result ValidationError (TaskRegistry × ℕ)
record_failed_automatic_attempt r id = elim (get r.tasks id) [
  | none ↦ err ValidationError.unknown
  | some t ↦
      let count = count_of r.failed_attempts t.spec.fingerprint in
      if not
        (status_eq t.status TaskStatus.failed || status_eq t.status TaskStatus.returned_to_lead)
      then err ValidationError.attempt_not_failed
      else if leb 2 count
      then err ValidationError.fingerprint_exhausted
      else ok (
        record r { failed_attempts = put r.failed_attempts t.spec.fingerprint (count + 1) },
        count + 1,
      )
]

-- `self._failed[fingerprint] = max(self._failed.get(fingerprint, 0), count)`, for each row
unfoldable pub raise_counts : Dict ℕ → List (String × ℕ) → Dict ℕ
raise_counts d [] = d
raise_counts d (x ∷ rows) = raise_counts (put d x.0 (max (count_of d x.0) x.1)) rows

unfoldable pub load_from_journal : TaskRegistry → List (String × ℕ) → List String → TaskRegistry
load_from_journal r attempt_rows task_rows = record r {
  failed_attempts =
      raise_counts (raise_counts r.failed_attempts attempt_rows) (map (λ f. (f, 2)) task_rows);
}
