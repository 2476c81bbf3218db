-- ===== src/Routing/Usage/Once.antt =====
-- One execution key of an assignment begins one provider call.
use skail.Prelude.{
  ℕ, String, ◌≡◌, refl, ◌∙◌, ap, inl, inr, Bool, true, false, ◌&&◌, Option, some, List, [], ◌∷◌,
  ◌++◌, arith, str_eq, eq_iff, eq_refl, any, if◌then◌else◌, Option-cases, Bool-cases, ok, err,
}
use skail.Routing.Budget.Operations.{Percent}
use skail.Routing.Assignment.Tables.{AssignmentRow}
use skail.Routing.Assignment.Lookups.{find_assignment}
use skail.Routing.Usage.Tables.{
  CallStatus, ProviderCall, Failure, UsageStore, UsageError, unknown_row, replay_blocked, set_call,
  run_of,
}
use skail.Routing.Usage.Calls.{begin_in, begin_call, find_execution, new_call}
use skail.Routing.Usage.Effects.{Effects, untouched, begun, closed, doubted, refused, estimated}
use skail.Routing.Usage.Moves.{Begins, begin_call-Begins}
use skail.Routing.Usage.Accounted.{any-snoc}
use skail.Routing.Usage.Histories.{UsageHistory, start, next, beginning, Accounts, history-Becomes}

abbrev is_execution : String → String → ProviderCall → Bool
is_execution assignment_id key c =
    str_eq c.assignment_id assignment_id && str_eq c.execution_key key

-- The key has begun a call of the assignment.
abbrev was_executed : String → String → List ProviderCall → Bool
was_executed assignment_id key calls = any (is_execution assignment_id key) calls

set_call-executed :
    (a key id : String) (s : CallStatus) (amount : Option ℕ) (calls : List ProviderCall)
    → was_executed a key (set_call id s amount calls) ≡ was_executed a key calls
unfolding set_call
set_call-executed a key id s amount [] = refl
set_call-executed a key id s amount (c ∷ calls) =
    ground (arith, set_call-executed a key id s amount calls)

Effects-executed :
    (a key : String) {calls : List ProviderCall} {failures : List Failure} {cs : List ProviderCall}
    {fs : List Failure}
    → Effects calls failures cs fs
    → was_executed a key calls ≡ true
    → was_executed a key cs ≡ true
Effects-executed a key untouched h = h
Effects-executed a key (begun {cs} e c absent s) h =
    ground (arith, any-snoc (is_execution a key) cs c, Effects-executed a key e h)
Effects-executed a key (closed {cs} e id s amount may) h =
    set_call-executed a key id s amount cs ∙ Effects-executed a key e h
Effects-executed a key (doubted {cs} e id b amount may) h =
    set_call-executed a key id _ amount cs ∙ Effects-executed a key e h
Effects-executed a key (refused e b) h = Effects-executed a key e h
Effects-executed a key (estimated e id) h = Effects-executed a key e h

execution_found :
    (a key : String) (calls : List ProviderCall)
    → was_executed a key calls ≡ true
    → (c : ProviderCall) × (find_execution a key calls ≡ some c)
unfolding find_execution
execution_found a key [] h = cc
execution_found a key (c ∷ calls) h = elim (Bool-cases (is_execution a key c)) [
  | inl hit ↦ (c, rw hit refl)
  | inr miss ↦ let (d, e) = execution_found a key calls (ground (arith, h, miss)) in (d, rw miss e)
]

pub found_assignment_id :
    (id : String) (rows : List AssignmentRow) (a : AssignmentRow)
    → find_assignment id rows ≡ some a
    → a.assignment_id ≡ id
unfolding find_assignment
found_assignment_id id [] a h = cc
found_assignment_id id (x ∷ rows) a h =
    ground (arith, h, eq_iff x.assignment_id id, found_assignment_id id rows a)

begin_in_refused :
    (call_id key run_id : String) (a : AssignmentRow) (u : UsageStore) (c : ProviderCall)
    → find_execution a.assignment_id key u.calls ≡ some c
    → begin_in call_id key a run_id u ≡ err (replay_blocked c.status)
unfolding begin_in
begin_in_refused call_id key run_id a u c h = rw h refl

begin_refused :
    (call_id new_key assignment_id key : String) (u : UsageStore)
    → str_eq key "" ≡ false
    → was_executed assignment_id key u.calls ≡ true
    → (e : UsageError) × (begin_call call_id new_key assignment_id (some key) u ≡ err e)
unfolding begin_call
begin_refused call_id new_key id key u named h =
    elim (Option-cases (find_assignment id u.service.assignments)) [
      | inl absent ↦ (unknown_row id, rw (absent, begin_call) refl)
      | inr (a, found) ↦ elim (Option-cases (run_of u.service id)) [
        | inl nowhere ↦ (unknown_row id, rw (found, begin_call, nowhere) refl)
        | inr (run_id, known) ↦
            let (c, executed) = execution_found id key u.calls h in
            let same = found_assignment_id id u.service.assignments a found in
            (
              replay_blocked c.status,
              rw (found, begin_call, known, named)
                  (begin_in_refused call_id key run_id a u c
                    (ap (λ j. find_execution j key u.calls) same ∙ executed)),
            )
      ]
    ]

executed_now :
    (call_id key assignment_id : String) (a : AssignmentRow) (u : UsageStore)
    → a.assignment_id ≡ assignment_id
    → was_executed assignment_id key (u.calls ++ new_call call_id a key u.calls ∷ []) ≡ true
executed_now call_id key assignment_id a u same = ground (
  arith,
  any-snoc (is_execution assignment_id key) u.calls (new_call call_id a key u.calls),
  eq_refl key,
  (eq_iff a.assignment_id assignment_id).1 same,
)

-- An execution key that is not the empty text begins at most one call of an assignment: after the
-- first, whatever became of it and of the assignments, another `begin_call` with the key raises.
pub begun_once :
    (p : Percent) (u u' u'' : UsageStore) (call_id call_id' new_key assignment_id key id : String)
    → str_eq key "" ≡ false
    → Accounts u
    → begin_call call_id new_key assignment_id (some key) u ≡ ok (id, u')
    → UsageHistory p u' u''
    → (e : UsageError) × (begin_call call_id' new_key assignment_id (some key) u'' ≡ err e)
begun_once p u u' u'' call_id call_id' new_key assignment_id key id named v began h =
    let (a, run_id, found, _, b) =
      begin_call-Begins call_id new_key assignment_id (some key) u u' id began in
    let one : UsageHistory p u u' =
      next start (beginning call_id new_key assignment_id (some key) id began) in
    let same = found_assignment_id assignment_id u.service.assignments a found in
    begin_refused call_id' new_key assignment_id key u'' named (
      Effects-executed assignment_id key (history-Becomes h (history-Becomes one v).1).0 (
        ap (λ (x : UsageStore). was_executed assignment_id key x.calls) (wrote b)
        ∙ executed_now call_id key assignment_id a u same))
  where
    wrote :
        {a : AssignmentRow} {run_id : String}
        → Begins call_id (if str_eq key "" then new_key else key) a run_id u u'
        → u' ≡ record u { calls = u.calls ++ new_call call_id a key u.calls ∷ [] }
    wrote {a = a} b =
        b.written
        ∙ ap (λ k. record u { calls = u.calls ++ new_call call_id a k u.calls ∷ [] })
            (rw named refl)
