-- ===== src/Runtime/Questions.antt =====
-- src/skail/runtime/interrupts.py: `QuestionStore`, the questions to the user that a run waits for.
-- The table is a list of rows in the order of their rowids; SQLite is taken to commit a whole
-- method or nothing; the options are stored as JSON and read back as they were.
pub mod Answers
pub mod Histories
use skail.Prelude.{
  String, Bool, true, false, ◌&&◌, ◌||◌, not, Option, none, some, List, [], ◌∷◌, ◌++◌, map, keep,
  str_eq, if◌then◌else◌, Result, ok, err,
}
use skail.Prelude.Sets.{contains}

pub data QuestionStatus : Type 0 where
  pending answered cancelled : QuestionStatus

abbrev pub is_pending : QuestionStatus → Bool
is_pending QuestionStatus.pending = true
is_pending _ = false

pub record Question : Type 0 where
  pub question_id : String
  pub graph_id : String
  pub task_id : Option String
  pub prompt : String
  pub options : List String
  pub reason : String
  pub blocking_scope : String
  pub status : QuestionStatus
  pub answer : Option String

pub record Row : Type 0 where
  pub question : Question
  pub idempotency_key : String

pub data QuestionError : Type 0 where
  stale not_an_option integrity missing_row : QuestionError

-- `SELECT * FROM questions WHERE question_id=?`
unfoldable pub find_question : List Row → String → Option Question
find_question [] id = none
find_question (r ∷ rows) id =
    if str_eq r.question.question_id id then some r.question else find_question rows id

-- `SELECT * FROM questions WHERE idempotency_key=?`
unfoldable pub find_key : List Row → String → Option Question
find_key [] key = none
find_key (r ∷ rows) key =
    if str_eq r.idempotency_key key then some r.question else find_key rows key

abbrev is_some : Option Question → Bool
is_some none = false
is_some (some q) = true

abbrev the_row : List Row → Option Question → Result QuestionError (List Row × Question)
the_row rows none = err QuestionError.missing_row
the_row rows (some q) = ok (rows, q)

-- The fields that a caller passes, and the answer of `uuid4`.
pub record Asked : Type 0 where
  pub uuid : String
  pub graph_id : String
  pub task_id : Option String
  pub prompt : String
  pub reason : String
  pub blocking_scope : String
  pub idempotency_key : String
  pub options : List String

abbrev pub inserted : Asked → Row
inserted a = record {
  question = record {
    question_id = a.uuid;
    graph_id = a.graph_id;
    task_id = a.task_id;
    prompt = a.prompt;
    options = a.options;
    reason = a.reason;
    blocking_scope = a.blocking_scope;
    status = QuestionStatus.pending;
    answer = none;
  };
  idempotency_key = a.idempotency_key;
}

-- The primary key refuses a second row with the same id.
unfoldable pub ask : List Row → Asked → Result QuestionError (List Row × Question)
ask rows a =
    let rows' = rows ++ inserted a ∷ [] in
    elim (find_key rows a.idempotency_key) [
      | some q ↦ ok (rows, q)
      | none ↦
          if is_some (find_question rows a.uuid)
          then err QuestionError.integrity
          else the_row rows' (find_key rows' a.idempotency_key)
    ]

unfoldable pub pending_of : List Row → String → List Question
pending_of rows graph_id =
    keep (λ q. str_eq q.graph_id graph_id && is_pending q.status) (map (λ r. r.question) rows)

-- `UPDATE questions SET status=?,answer=? WHERE question_id=?`
unfoldable pub update : List Row → String → QuestionStatus → Option String → List Row
update [] id status answer = []
update (r ∷ rows) id status answer =
    (if str_eq r.question.question_id id
      then record r { question = record (r.question) { status = status; answer = answer } }
      else r)
    ∷ update rows id status answer

abbrev is_empty : List String → Bool
is_empty [] = true
is_empty (x ∷ xs) = false

-- `answer is not None and options and answer not in options`
abbrev pub refuses : List String → Option String → Bool
refuses options none = false
refuses options (some a) = not (is_empty options) && not (contains options a)

unfoldable pub transition :
    List Row
    → String
    → String
    → QuestionStatus
    → Option String
    → Result QuestionError (List Row × Question)
transition rows id graph_id status answer =
    let rows' = update rows id status answer in
    elim (find_question rows id) [
      | none ↦ err QuestionError.stale
      | some q ↦
          if not (str_eq q.graph_id graph_id) || not (is_pending q.status)
          then err QuestionError.stale
          else if refuses q.options answer
          then err QuestionError.not_an_option
          else the_row rows' (find_question rows' id)
    ]

unfoldable pub answer :
    List Row → String → String → String → Result QuestionError (List Row × Question)
answer rows id a graph_id = transition rows id graph_id QuestionStatus.answered (some a)

unfoldable pub cancel : List Row → String → String → Result QuestionError (List Row × Question)
cancel rows id graph_id = transition rows id graph_id QuestionStatus.cancelled none
