-- ===== src/Runtime/Questions/Histories.antt =====
-- Histories of the calls of the store: a closed question keeps its answer, and a repeated question
-- finds the first one.
use skail.Prelude.{
  String, ◌≡◌, refl, sym, subst, false, Option, none, some, List, [], ◌∷◌, ◌++◌, arith, str_eq,
  eq_iff, eq_refl, if◌then◌else◌, ok, Option-cases, inl, inr,
}
use skail.Runtime.Questions.{
  Question, QuestionStatus, is_pending, Row, find_question, find_key, transition, answer, cancel,
  Asked, inserted, ask,
}
use skail.Runtime.Questions.Answers.{find_question-update, transition_inv}

pub data Step : List Row → List Row → Type 0 where
  asking : {s s' : List Row} (a : Asked) (q : Question) → ask s a ≡ ok (s', q) → Step s s'
  answering :
      {s s' : List Row} (id a g : String) (q : Question) → answer s id a g ≡ ok (s', q) → Step s s'
  cancelling :
      {s s' : List Row} (id g : String) (q : Question) → cancel s id g ≡ ok (s', q) → Step s s'

pub data Steps : List Row → List Row → Type 0 where
  none_more : {s : List Row} → Steps s s
  then_more : {s s' s'' : List Row} → Step s s' → Steps s' s'' → Steps s s''

find_question-append :
    (rows : List Row) (r : Row) (id : String) (q : Question)
    → find_question rows id ≡ some q
    → find_question (rows ++ r ∷ []) id ≡ some q
unfolding find_question
find_question-append [] r id q h = cc
find_question-append (x ∷ rows) r id q h = ground (arith, find_question-append rows r id q, h)

find_key-append :
    (rows : List Row) (r : Row) (key : String)
    → find_key rows key ≡ none
    → find_key (rows ++ r ∷ []) key
      ≡ (if str_eq r.idempotency_key key then some r.question else none)
unfolding find_key
find_key-append [] r key h = refl
find_key-append (x ∷ rows) r key h = ground (arith, find_key-append rows r key, h)

-- What a call of `ask` leaves in the table.
asked_rows :
    (s s' : List Row) (a : Asked) (q : Question)
    → ask s a ≡ ok (s', q)
    → (find_key s' a.idempotency_key ≡ some q)
      × ((id : String) (p : Question) → find_question s id ≡ some p → find_question s' id ≡ some p)
unfolding ask
asked_rows s s' a q h = elim (Option-cases (find_key s a.idempotency_key)) [
  | inr e ↦ (ground (arith, e.1, h), λ id p w. ground (arith, e.1, h, w))
  | inl e ↦
      let added = find_key-append s (inserted a) a.idempotency_key e in
      (
        ground (arith, e, h, added, eq_refl a.idempotency_key),
        λ id p w. ground (
          arith,
          e,
          h,
          added,
          eq_refl a.idempotency_key,
          find_question-append s (inserted a) id p w,
        ),
      )
]

transition_keeps :
    (s s' : List Row) (id g : String) (st : QuestionStatus) (a : Option String) (q : Question)
    (j : String) (p : Question)
    → transition s id g st a ≡ ok (s', q)
    → find_question s j ≡ some p
    → is_pending p.status ≡ false
    → find_question s' j ≡ some p
transition_keeps s s' id g st a q j p h w closed =
    let ((o, v), e) = transition_inv s s' id g st a q h in
    ground
      (arith, e, w, closed, v.found, v.open_still, find_question-update s id j st a, eq_iff id j)

step_keeps :
    {s s' : List Row} (j : String) (p : Question)
    → Step s s'
    → find_question s j ≡ some p
    → is_pending p.status ≡ false
    → find_question s' j ≡ some p
unfolding answer cancel
step_keeps j p (asking a q h) w closed = (asked_rows _ _ a q h).1 j p w
step_keeps j p (answering id a g q h) w closed =
    transition_keeps _ _ id g QuestionStatus.answered (some a) q j p h w closed
step_keeps j p (cancelling id g q h) w closed =
    transition_keeps _ _ id g QuestionStatus.cancelled none q j p h w closed

-- A question that was answered or cancelled stays as it is, with its answer, whatever calls of the
-- store follow: it is answered at most once.
pub closed_stays :
    {s s' : List Row} (j : String) (p : Question)
    → Steps s s'
    → find_question s j ≡ some p
    → is_pending p.status ≡ false
    → find_question s' j ≡ some p
closed_stays j p none_more w closed = w
closed_stays j p (then_more st r) w closed = closed_stays j p r (step_keeps j p st w closed) closed

-- A question that was asked may be asked again with the same idempotency key, its other fields
-- being what they may: the table stays as it is, and the first question is returned.
ask_idempotent :
    (s s' : List Row) (a b : Asked) (q : Question)
    → ask s a ≡ ok (s', q)
    → b.idempotency_key ≡ a.idempotency_key
    → ask s' b ≡ ok (s', q)
unfolding ask
ask_idempotent s s' a b q h same =
    let found = subst (λ k. find_key s' k ≡ some q) (sym same) (asked_rows s s' a q h).0 in
    ground (arith, found)
