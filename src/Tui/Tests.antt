-- ===== src/Tui/Tests.antt =====
-- Runs of the projection, and the theorems at concrete inputs.
use skail.Prelude.{true, false, none, some, List, [], ◌∷◌, ◌≡◌, refl, ◌≤◌, if◌then◌else◌}
use skail.Prelude.Dict.{get, put, values}
use skail.Prelude.Sets.{contains}
use skail.Routing.Budget.Tables.{
  Tables, UsageRecord, Reservation, reserved, token_derived_estimate, snapshot_of,
}
use skail.Tui.Projection.State.{error, TranscriptItem, Projection, projection}
use skail.Tui.Projection.Transcripts.{
  transcript_call, add_run_answer, decimal_from, toggle, TranscriptCall, adds, answers, toggles,
  notes, sees, transcript_calls, count_id, add_transcript_item, transcript_shows_once,
}
use skail.Tui.Projection.Queues.{queue_followup, take_back_newest, take_back_newest-queue_followup}
use skail.Tui.Projection.Budget.{
  budget_view, add_usages, add_reservations, CurrentRun, apply_budget_snapshot,
}
use skail.Tui.Projection.Agreement.{or_nothing, shown_available-snapshot}
use skail.Tui.Projection.Slots.{
  child_call, ChildCall, asks, marks, child_calls, IsSlotted, child_slots_stay,
}
use skail.Tui.Projection.Children.{
  child_slot_for, note_child, mark_child_status, free_slot, is_used,
}

abbrev failed_item : TranscriptItem
failed_item = record { id = "t1"; role = error; collapsed = true; can_collapse = true }

-- the answer of a run arrives twice, and a failure that is opened
abbrev shown : List TranscriptCall
shown =
    answers "x" (some "r1") "done"
    ∷ adds "x" failed_item
    ∷ toggles "t1"
    ∷ sees
    ∷ answers "x" (some "r1") "done"
    ∷ notes "saved"
    ∷ []

shown_counts :
    (transcript_calls shown projection).unread ≡ 1
    × count_id "run-answer:r1" (transcript_calls shown projection).transcript_items ≡ 1
unfolding transcript_calls transcript_call add_transcript_item add_run_answer toggle contains
    count_id
shown_counts = (refl, refl)

-- an answer without a run is named by its place
placed_answer :
    (add_run_answer "x" none "done" (transcript_calls shown projection)).1.seen_transcript_ids
    ≡ "lead-2" ∷ "t1" ∷ "run-answer:r1" ∷ []
unfolding transcript_calls transcript_call add_transcript_item add_run_answer toggle contains
    decimal_from
placed_answer = refl

transcript_shows_once_example :
    (count_id "t1" (transcript_calls shown projection).transcript_items
      ≡ (if contains (transcript_calls shown projection).seen_transcript_ids "t1" then 1 else 0))
    × (1 ≤ count_id "t1" (transcript_calls shown projection).transcript_items
        → add_transcript_item "tx-1" failed_item (transcript_calls shown projection)
          ≡ (false, transcript_calls shown projection))
transcript_shows_once_example = transcript_shows_once shown "tx-1" failed_item

abbrev waiting : Projection
waiting = record projection { queue = "first" ∷ "second" ∷ [] }

take_back_newest-queue_followup_example :
    take_back_newest (queue_followup "third" waiting) ≡ (some "third", waiting)
take_back_newest-queue_followup_example = take_back_newest-queue_followup "third" waiting

-- four children; the fourth is shown in the first slot, which it does not hold
abbrev four : List ChildCall
four = asks "a" ∷ ChildCall.notes "b" "build" "m" "" ∷ marks "c" "failed" none ∷ asks "d" ∷ []

four_slots : (child_calls four projection).child_slots ≡ ("a", 1) ∷ ("b", 2) ∷ ("c", 3) ∷ []
unfolding child_calls child_call child_slot_for note_child mark_child_status free_slot is_used get
    put values
four_slots = refl

child_slots_stay_example :
    IsSlotted (child_calls four projection).child_slots
    × (get (child_calls four projection).child_slots "b" ≡ some 2
        → child_slot_for "b" (child_calls (asks "e" ∷ []) (child_calls four projection))
          ≡ (2, child_calls (asks "e" ∷ []) (child_calls four projection)))
child_slots_stay_example = child_slots_stay four (asks "e" ∷ []) "b" 2

abbrev usage_row : UsageRecord
usage_row = record {
  usage_id = "u1";
  run_id = "r1";
  task_id = some "t";
  amount_usd = 30;
  authoritative = false;
  authority = token_derived_estimate;
  idempotency_key = "k1";
  reservation_id = none;
}

abbrev held_row : Reservation
held_row = record {
  reservation_id = "b1";
  run_id = "r1";
  task_id = none;
  amount_usd = 50;
  status = reserved;
  idempotency_key = "k2";
  purpose = "model call";
}

abbrev session_rows : Tables
session_rows = record {
  runs = ("r1", some 100) ∷ [];
  tasks = "t" ∷ [];
  reservations = held_row ∷ [];
  usage_records = usage_row ∷ [];
  warnings = [];
}

abbrev run_1 : CurrentRun
run_1 = record { run_id = "r1"; budget_limit_usd = some 100 }

shown_left :
    (apply_budget_snapshot
      (some run_1)
      session_rows.usage_records
      session_rows.reservations
      projection).budget_item.available_usd
    ≡ some 20
unfolding apply_budget_snapshot budget_view add_usages add_reservations put
shown_left = refl

shown_available-snapshot_example :
    (apply_budget_snapshot
      (some run_1)
      session_rows.usage_records
      session_rows.reservations
      projection).budget_item.available_usd
    ≡ or_nothing (snapshot_of session_rows "r1" (some 100)).available_usd
shown_available-snapshot_example =
    shown_available-snapshot session_rows run_1 projection refl (refl, tt) ((refl, refl), tt)
