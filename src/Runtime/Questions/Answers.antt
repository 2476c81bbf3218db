-- ===== src/Runtime/Questions/Answers.antt =====
-- Which answers are accepted, and what they do to the open questions.
use skail.Prelude.{
  String, ◌≡◌, refl, true, false, not, Option, none, some, List, [], ◌∷◌, keep, arith, str_eq,
  eq_iff, eq_refl, if◌then◌else◌, ok, Option-cases, inl, inr, ◌↔◌,
}
use skail.Runtime.Questions.{
  Question, QuestionStatus, is_pending, Row, find_question, update, refuses, transition, answer,
  pending_of,
}

pub find_question-update :
    (rows : List Row) (id j : String) (st : QuestionStatus) (a : Option String)
    → find_question (update rows id st a) j ≡ (
        if str_eq id j
        then elim (find_question rows j) [
          | none ↦ none
          | some q ↦ some (record q { status = st; answer = a })
        ]
        else find_question rows j)
unfolding find_question update
find_question-update [] id j st a = ground arith
find_question-update (r ∷ rows) id j st a = ground (
  arith,
  find_question-update rows id j st a,
  eq_iff id j,
  eq_iff r.question.question_id id,
  eq_iff r.question.question_id j,
)

pending-update :
    (rows : List Row) (id g : String) (st : QuestionStatus) (a : Option String)
    → is_pending st ≡ false
    → pending_of (update rows id st a) g
      ≡ keep (λ q. not (str_eq q.question_id id)) (pending_of rows g)
unfolding pending_of update
pending-update [] id g st a closed = refl
pending-update (r ∷ rows) id g st a closed = ground (arith, pending-update rows id g st a closed)

-- The row of a question that a transition is accepted for.
pub record Accepts (rows : List Row) (id g : String) (a : Option String) (q : Question)
    : Type 0 where
  pub found : find_question rows id ≡ some q
  pub graph : q.graph_id ≡ g
  pub open_still : is_pending q.status ≡ true
  pub offered : refuses q.options a ≡ false

transition_ok :
    (rows : List Row) (id g : String) (st : QuestionStatus) (a : Option String) (q : Question)
    → Accepts rows id g a q
    → transition rows id g st a ≡ ok (update rows id st a, record q { status = st; answer = a })
unfolding transition
transition_ok rows id g st a q v = ground (
  arith,
  v.found,
  v.graph,
  v.open_still,
  v.offered,
  find_question-update rows id id st a,
  eq_refl id,
  eq_iff q.graph_id g,
)

pub transition_inv :
    (rows rows' : List Row) (id g : String) (st : QuestionStatus) (a : Option String)
    (q' : Question)
    → transition rows id g st a ≡ ok (rows', q')
    → ((q : Question) × Accepts rows id g a q) × (rows' ≡ update rows id st a)
unfolding transition
transition_inv rows rows' id g st a q' h = elim (Option-cases (find_question rows id)) [
  | inl e ↦ ground (arith, e, h)
  | inr e ↦ (
    (
      e.0,
      record {
        found = e.1;
        graph = ground (arith, e.1, h, eq_iff e.0.graph_id g);
        open_still = ground (arith, e.1, h);
        offered = ground (arith, e.1, h);
      },
    ),
    ground (arith, e.1, h),
  )
]

-- An answer is accepted exactly when the question exists, belongs to the graph, is pending, and
-- offers no options or the answer among them.
answer_accepted_iff :
    (rows : List Row) (id a g : String)
    → ((r : List Row × Question) × (answer rows id a g ≡ ok r))
      ↔ ((q : Question) × Accepts rows id g (some a) q)
unfolding answer
answer_accepted_iff rows id a g = (
  λ h. (transition_inv rows (h.0.0) id g QuestionStatus.answered (some a) (h.0.1) h.1).0,
  λ v. (_, transition_ok rows id g QuestionStatus.answered (some a) v.0 v.1),
)

-- An accepted answer is stored with the question, which is returned, and of the open questions of
-- every graph it removes exactly this one, the others keeping their order.
answer_closes :
    (rows rows' : List Row) (id a g : String) (q : Question)
    → answer rows id a g ≡ ok (rows', q)
    → (find_question rows' id ≡ some q)
      × (q.status ≡ QuestionStatus.answered)
      × (q.answer ≡ some a)
      × ((other : String)
          → pending_of rows' other
            ≡ keep (λ p. not (str_eq p.question_id id)) (pending_of rows other))
unfolding answer
answer_closes rows rows' id a g q h =
    let ((p, v), e) = transition_inv rows rows' id g QuestionStatus.answered (some a) q h in
    let done = transition_ok rows id g QuestionStatus.answered (some a) p v in
    let stored = find_question-update rows id id QuestionStatus.answered (some a) in
    (
      ground (arith, h, done, e, stored, v.found, eq_refl id),
      ground (arith, h, done),
      ground (arith, h, done),
      λ other. rw e (pending-update rows id other QuestionStatus.answered (some a) refl),
    )
