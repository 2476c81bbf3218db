-- ===== src/Runtime/Tests.antt =====
-- The theorems about leases, failures, questions and escalations at single inputs.
use skail.Prelude.{String, ◌≡◌, refl, true, false, none, some, List, [], ◌∷◌, ok}
use skail.Prelude.Int.{pos, ◌+ℤ◌}
use skail.Prelude.Sets.{contains}
use skail.Runtime.Leases.{Lease, fresh, try_acquire, is_open_to}
use skail.Runtime.Leases.Exclusion.{History, start, acquires, IsExclusive, History-IsExclusive}
use skail.Runtime.Monitor.{RunModelCallBudget, call_budget, monitor}
use skail.Runtime.Monitor.Answers.{Event, call, answers, noted, empty_log, answers_agree}
use skail.Runtime.Questions.{
  Question, QuestionStatus, Row, find_question, answer, Asked, inserted, ask, transition, update,
  find_key,
}
use skail.Runtime.Questions.Histories.{none_more, then_more, asking, closed_stays}

abbrev lease_held : Lease
lease_held = record { holder = some "lead"; depth = pos 1 }

lease_taken : History lease_held ("lead" ∷ [])
unfolding try_acquire is_open_to fresh ◌+ℤ◌
lease_taken = acquires "lead" false start refl

History-IsExclusive_example : IsExclusive lease_held ("lead" ∷ [])
History-IsExclusive_example = History-IsExclusive lease_taken

abbrev two_left : RunModelCallBudget
two_left = record { max_calls = 5; calls_started = 3 }

two_left_ok : call_budget 5 3 ≡ ok two_left
unfolding call_budget
two_left_ok = refl

abbrev same_text : String → String
same_text s = s

abbrev thrice : List (Event same_text same_text)
thrice = call "read" "a" true ∷ call "read" "a" true ∷ call "read" "a" true ∷ []

answers_agree_example :
    answers same_text same_text (monitor none none none) thrice
    ≡ noted same_text same_text empty_log thrice
answers_agree_example = answers_agree same_text same_text none none none thrice

abbrev asked : Asked
asked = record {
  uuid = "q1";
  graph_id = "g";
  task_id = none;
  prompt = "Which branch?";
  reason = "two fit";
  blocking_scope = "run";
  idempotency_key = "k";
  options = "main" ∷ "dev" ∷ [];
}

abbrev open_rows : List Row
open_rows = inserted asked ∷ []

asked_ok : ask [] asked ≡ ok (open_rows, (inserted asked).question)
unfolding ask find_key find_question
asked_ok = refl

abbrev answered_question : Question
answered_question = record ((inserted asked).question) {
  status = QuestionStatus.answered;
  answer = some "main";
}

abbrev answered_rows : List Row
answered_rows = record (inserted asked) { question = answered_question } ∷ []

answered_ok : answer open_rows "q1" "main" "g" ≡ ok (answered_rows, answered_question)
unfolding answer transition find_question update contains
answered_ok = refl

answered_found : find_question answered_rows "q1" ≡ some answered_question
unfolding find_question
answered_found = refl

asked_again : ask answered_rows asked ≡ ok (answered_rows, answered_question)
unfolding ask find_key
asked_again = refl

closed_stays_example : find_question answered_rows "q1" ≡ some answered_question
closed_stays_example =
    closed_stays "q1" answered_question
      (then_more (asking asked answered_question asked_again) none_more) answered_found refl
