-- ===== src/Runtime/Scheduler/State.antt =====
-- The fields of `ChildScheduler`, and its ready queue.
--
-- `_children` maps each identity to a record that holds it, so it is the list of the records in
-- insertion order. The condition variable and the event loop are left out: a waiting call is a
-- state in which `try_start` answers `waiting`.
use skail.Prelude.{
  ℕ, String, Bool, false, ◌&&◌, ◌||◌, not, List, [], ◌∷◌, map, str_eq, if◌then◌else◌, leb, all,
  keep,
}
use skail.Prelude.Int.{ℤ, ltb_ℤ}
use skail.Prelude.Dict.{Dict, has}
use skail.Prelude.Sets.{contains}

pub record ScheduledChild : Type 0 where
  pub task_id : String
  pub priority : ℤ
  pub creation_order : ℕ
  pub depends_on : List String
  pub awaiting_approval : Bool

pub data Reason : Type 0 where
  dependency_unsuccessful dependency_cancelled : Reason

pub record Scheduler : Type 0 where
  pub max_children : ℕ
  pub children : List ScheduledChild
  pub completed : List String
  pub failed : List String
  pub running : List String
  pub blocked : Dict Reason

pub data SchedulerError : Type 0 where
  max_children_invalid duplicate_task missing_dependency unknown_task : SchedulerError

-- `task_id in self._children`
unfoldable pub has_child : List ScheduledChild → String → Bool
has_child [] id = false
has_child (c ∷ cs) id = str_eq c.task_id id || has_child cs id

-- the test of `ready`
unfoldable pub is_candidate : Scheduler → ScheduledChild → Bool
is_candidate s c =
    not c.awaiting_approval
    && (not (contains s.completed c.task_id)
        && (not (contains s.failed c.task_id)
            && (not (contains s.running c.task_id)
                && (not (has s.blocked c.task_id) && all (contains s.completed) c.depends_on))))

-- `(-a.priority, a.creation_order) <= (-b.priority, b.creation_order)`
unfoldable pub comes_before : ScheduledChild → ScheduledChild → Bool
comes_before a b =
    ltb_ℤ b.priority a.priority
    || (not (ltb_ℤ a.priority b.priority) && leb a.creation_order b.creation_order)

-- `sorted`
unfoldable pub insert_child : ScheduledChild → List ScheduledChild → List ScheduledChild
insert_child c [] = c ∷ []
insert_child c (d ∷ ds) = if comes_before c d then c ∷ (d ∷ ds) else d ∷ insert_child c ds

unfoldable pub sort_children : List ScheduledChild → List ScheduledChild
unfolding insert_child
sort_children [] = []
sort_children (c ∷ cs) = insert_child c (sort_children cs)

unfoldable pub ready_children : Scheduler → List ScheduledChild
ready_children s = sort_children (keep (is_candidate s) s.children)

-- `ChildScheduler.ready`
unfoldable pub ready : Scheduler → List String
unfolding ready_children
ready s = map (λ c. c.task_id) (ready_children s)
