-- ===== src/Tui/Projection/Children.antt =====
-- The slots and the views of children, and the models of attempts.
use skail.Prelude.{
  ℕ, String, Bool, false, ◌||◌, Option, none, some, List, [], ◌∷◌, str_eq, if◌then◌else◌, leb,
  length, ◌==◌,
}
use skail.Prelude.Dict.{get, put, values, has}
use skail.Tui.Projection.State.{ChildView, Projection}

-- `slot in used`
unfoldable pub is_used : ℕ → List ℕ → Bool
is_used slot [] = false
is_used slot (s ∷ used) = s == slot || is_used slot used

-- `for slot in (1, 2, 3)`: the first unused slot, with the check of `_MAX_CHILD_SLOTS`
unfoldable pub free_slot : List ℕ → List ℕ → ℕ → Option ℕ
free_slot used [] taken = none
free_slot used (slot ∷ slots) taken =
    let rest = free_slot used slots taken in
    if is_used slot used then rest else if leb 3 taken then none else some slot

-- `child_slot_for`
abbrev pub with_slot : String → Projection → Option ℕ → ℕ × Projection
with_slot child_id p none = (1, p)
with_slot child_id p (some slot) =
    (slot, record p { child_slots = put p.child_slots child_id slot })

abbrev pub held_slot : String → Projection → Option ℕ → ℕ × Projection
held_slot child_id p (some slot) = (slot, p)
held_slot child_id p none =
    with_slot child_id p (free_slot (values p.child_slots) (1 ∷ 2 ∷ 3 ∷ []) (length p.child_slots))

unfoldable pub child_slot_for : String → Projection → ℕ × Projection
child_slot_for child_id p = held_slot child_id p (get p.child_slots child_id)

abbrev or_kept : String → String → String
or_kept new kept = if str_eq new "" then kept else new

abbrev updated : String → String → String → ChildView → ChildView
updated task model workspace_lock c = record c {
  task = or_kept task c.task;
  model = or_kept model c.model;
  workspace_lock = or_kept workspace_lock c.workspace_lock;
}

-- `note_child`
abbrev pub noted :
    String → String → String → String → ℕ → Projection → Option ChildView → ℕ × Projection
noted child_id task model workspace_lock slot p (some c) =
    (c.slot, record p { children = put p.children child_id (updated task model workspace_lock c) })
noted child_id task model workspace_lock slot p none = (
  slot,
  record p {
    children = put p.children child_id (record {
      id = child_id;
      slot = slot;
      status = "running";
      task = task;
      model = model;
      workspace_lock = workspace_lock;
      last_event = "started";
    });
  },
)

unfoldable pub note_child : String → String → String → String → Projection → ℕ × Projection
note_child child_id task model workspace_lock p =
    let r = child_slot_for child_id p in
    noted child_id task model workspace_lock r.0 r.1 (get r.1.children child_id)

-- `last_event or status`, and `last_event if last_event is not None else status`
abbrev event_or : String → Option String → String
event_or status none = status
event_or status (some e) = if str_eq e "" then status else e

abbrev event_else : String → Option String → String
event_else status none = status
event_else status (some e) = e

-- `mark_child_status`
abbrev with_child : String → String → Option String → ℕ × Projection → Projection
with_child child_id status last_event r = record r.1 {
  children = put r.1.children child_id (record {
    id = child_id;
    slot = r.0;
    status = status;
    task = "";
    model = "";
    workspace_lock = "";
    last_event = event_or status last_event;
  });
}

abbrev pub marked : String → String → Option String → Projection → Option ChildView → Projection
marked child_id status last_event p none =
    with_child child_id status last_event (child_slot_for child_id p)
marked child_id status last_event p (some c) = record p {
  children =
      put p.children child_id
        (record c { status = status; last_event = event_else status last_event });
}

unfoldable pub mark_child_status : String → String → Option String → Projection → Projection
mark_child_status child_id status last_event p =
    marked child_id status last_event p (get p.children child_id)

-- `set_future_model`
abbrev set_future_model : String → Projection → Projection
set_future_model name p = record p { future_model = name; lead_model = name }

-- `note_attempt_model` and `model_for_attempt`
unfoldable note_attempt_model : String → String → Projection → Projection
note_attempt_model attempt_id model p =
    if has p.attempt_models attempt_id
    then p
    else record p { attempt_models = put p.attempt_models attempt_id model }

abbrev pub model_for_attempt : String → Projection → Option String
model_for_attempt attempt_id p = get p.attempt_models attempt_id
