-- ===== src/Routing/Usage/Marks.antt =====
-- Every operation of the settler changes the calls and failures in those ways only.
use skail.Prelude.{
  String, ◌≡◌, refl, sym, subst, ◌∙◌, ap, ◌⊎◌, inl, inr, Bool, true, false, ◌||◌, Option, none,
  some, List, [], ◌∷◌, ◌++◌, arith, eq_iff, Option-cases, Bool-cases, Result, ok,
}
use skail.Routing.Assignment.Lookups.{find_assignment}
use skail.Routing.Usage.Tables.{
  CallStatus, started, completed, ambiguous, rejected, call_eq, ProviderCall, CallUsage, UsageStore,
  UsageError, find_call,
}
use skail.Routing.Usage.Calls.{mark_call_succeeded, mark_ambiguous, mark_rejected, made_ambiguous}
use skail.Routing.Usage.Recording.{Tokens, record_call, complete_call, store_usage, same_call_usage}
use skail.Routing.Usage.Effects.{
  Effects, untouched, closed, doubted, MayBecome, IsOpenFor, status_of,
}

-- From the calls and failures of one store to those of another.
abbrev pub Becomes : UsageStore → UsageStore → Type 0
Becomes u u' = Effects u.calls u.failures u'.calls u'.failures

pub same_store :
    {u u' : UsageStore} → ◌≡◌ {A = Result UsageError UsageStore} (ok u) (ok u') → u ≡ u'
same_store h = ground (arith, h)

Becomes-same :
    (u v u' : UsageStore)
    → Becomes u v
    → ◌≡◌ {A = Result UsageError UsageStore} (ok v) (ok u')
    → Becomes u u'
Becomes-same u v u' e h = subst (Becomes u) (same_store h) e

pub call_eq-eq : (a b : CallStatus) → call_eq a b ≡ true → a ≡ b
call_eq-eq a b h = ground (arith, h)

pub mark_call_succeeded-Becomes :
    (id : String) (u u' : UsageStore) → mark_call_succeeded id u ≡ ok u' → Becomes u u'
unfolding mark_call_succeeded
mark_call_succeeded-Becomes id u u' h = elim (Option-cases (find_call id u.calls)) [
  | inl absent ↦ let g = rw (absent, mark_call_succeeded) at h in cc
  | inr (c, found) ↦ elim (Bool-cases (call_eq c.status completed)) [
    | inl done ↦ Becomes-same u u u' untouched (rw (found, mark_call_succeeded, done) at h)
    | inr unfinished ↦ elim (Bool-cases (call_eq c.status started)) [
      | inl live ↦
          Becomes-same u _ u'
            (closed untouched id completed c.amount_usd
              (inl (ap status_of found ∙ ap some (call_eq-eq c.status started live))))
            (rw (found, mark_call_succeeded, unfinished, live) at h)
      | inr other ↦ let g = rw (found, mark_call_succeeded, unfinished, other) at h in cc
    ]
  ]
]

pub mark_rejected-Becomes :
    (id : String) (request_rejected : Bool) (u u' : UsageStore)
    → mark_rejected id request_rejected u ≡ ok u'
    → Becomes u u'
unfolding mark_rejected
mark_rejected-Becomes id false u u' h = cc
mark_rejected-Becomes id true u u' h = elim (Option-cases (find_call id u.calls)) [
  | inl absent ↦ let g = rw absent at h in cc
  | inr (c, found) ↦ elim (Bool-cases (call_eq c.status rejected)) [
    | inl done ↦ Becomes-same u u u' untouched (rw (found, done) at h)
    | inr unfinished ↦ elim (Bool-cases (call_eq c.status started)) [
      | inl live ↦
          Becomes-same u _ u'
            (closed untouched id rejected c.amount_usd
              (ap status_of found ∙ ap some (call_eq-eq c.status started live)))
            (rw (found, unfinished, live) at h)
      | inr other ↦ let g = rw (found, unfinished, other) at h in cc
    ]
  ]
]

pub found_id :
    (id : String) (calls : List ProviderCall) (c : ProviderCall)
    → find_call id calls ≡ some c
    → c.call_id ≡ id
unfolding find_call
found_id id [] c h = cc
found_id id (d ∷ calls) c h = ground (arith, h, eq_iff d.call_id id, found_id id calls c)

-- Neither completed nor rejected: started, or ambiguous.
undecided :
    (s : CallStatus)
    → call_eq s completed || call_eq s rejected ≡ false
    → (s ≡ started) ⊎ (s ≡ ambiguous)
undecided CallStatus.started h = inl refl
undecided CallStatus.ambiguous h = inr refl
undecided CallStatus.completed h = cc
undecided CallStatus.rejected h = cc

pub mark_ambiguous-Becomes :
    (id : String) (u u' : UsageStore) → mark_ambiguous id u ≡ ok u' → Becomes u u'
unfolding mark_ambiguous
mark_ambiguous-Becomes id u u' h = elim (Option-cases (find_call id u.calls)) [
  | inl absent ↦ let g = rw (absent, mark_ambiguous) at h in cc
  | inr (c, found) ↦ elim (Bool-cases (call_eq c.status completed || call_eq c.status rejected)) [
    | inl done ↦ Becomes-same u u u' untouched (rw (found, mark_ambiguous, done) at h)
    | inr open_call ↦
        Becomes-same u (made_ambiguous c u) u'
          (doubted untouched c.call_id c.assignment_id c.amount_usd (
            subst (IsOpenFor c.assignment_id)
              (sym (ap (λ j. find_call j u.calls) (found_id id u.calls c found) ∙ found))
              (refl, undecided c.status open_call)))
          (rw (found, mark_ambiguous, open_call) at h)
  ]
]

-- Neither ambiguous nor rejected: started, or completed.
accepts_usage :
    (s : CallStatus)
    → call_eq s ambiguous || call_eq s rejected ≡ false
    → MayBecome completed (some s)
accepts_usage CallStatus.started h = inl refl
accepts_usage CallStatus.completed h = inr refl
accepts_usage CallStatus.ambiguous h = cc
accepts_usage CallStatus.rejected h = cc

complete_call-Becomes :
    (x : CallUsage) (u u' : UsageStore)
    → complete_call x u (find_call x.call_id u.calls) ≡ ok u'
    → Becomes u u'
complete_call-Becomes x u u' h = elim (Option-cases (find_call x.call_id u.calls)) [
  | inl absent ↦ Becomes-same u u u' untouched (rw absent at h)
  | inr (c, found) ↦ elim (Bool-cases (call_eq c.status ambiguous || call_eq c.status rejected)) [
    | inl late ↦ let g = rw (found, late) at h in cc
    | inr in_time ↦
        Becomes-same u _ u'
          (closed untouched x.call_id completed _ (
            subst (MayBecome completed) (sym (ap status_of found))
              (accepts_usage c.status in_time)))
          (rw (found, in_time) at h)
  ]
]

store_usage-Becomes :
    (x : CallUsage) (u u' : UsageStore) (existing : Option CallUsage)
    → store_usage x u existing ≡ ok u'
    → Becomes u u'
store_usage-Becomes x u u' (some old) h = elim (Bool-cases (same_call_usage old x)) [
  | inl same ↦ Becomes-same u u u' untouched (rw same at h)
  | inr differs ↦ let g = rw differs at h in cc
]
store_usage-Becomes x u u' none h =
    complete_call-Becomes x (record u { usages = u.usages ++ x ∷ [] }) u' h

pub record_call-Becomes :
    (read : String → Option (List (Option Tokens))) (assignment_id id : String) (u u' : UsageStore)
    → record_call read assignment_id id u ≡ ok u'
    → Becomes u u'
unfolding record_call
record_call-Becomes read assignment_id id u u' h =
    elim (Option-cases (find_assignment assignment_id u.service.assignments)) [
      | inl absent ↦ let g = rw (absent, record_call) at h in cc
      | inr (a, found) ↦ elim (Option-cases (read a.provider)) [
        | inl unread ↦ let g = rw (found, record_call, unread) at h in cc
        | inr (values, known) ↦ store_usage-Becomes _ u u' _ (rw (found, record_call, known) at h)
      ]
    ]
