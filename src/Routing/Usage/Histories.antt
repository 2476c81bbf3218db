-- ===== src/Routing/Usage/Histories.antt =====
-- Histories of the settler's calls, over a service whose store changes in between.
use skail.Prelude.{
  String, ◌≡◌, sym, subst, ◌∙◌, ap, inl, inr, Bool, true, false, ◌&&◌, ◌||◌, Option, some, List, [],
  ◌∷◌, arith, eq_iff, eq_refl, any, Bool-cases, All, ok,
}
use skail.Routing.Budget.Operations.{Percent}
use skail.Routing.Assignment.Tables.{AssignmentRow, Store}
use skail.Routing.Usage.Tables.{ambiguous, ProviderCall, Failure, UsageStore, run_of, is_run}
use skail.Routing.Usage.Calls.{
  begin_call, mark_call_succeeded, mark_ambiguous, mark_rejected, mark_unreturned_calls_ambiguous,
}
use skail.Routing.Usage.Recording.{Tokens, record_call}
use skail.Routing.Usage.Settling.{settle_row}
use skail.Routing.Usage.Reconciling.{CallReconciliationResult, reconcile_ambiguous_call}
use skail.Routing.Usage.Effects.{
  untouched, status_at, is_closed, Effects-keeps_closed, Effects-trans,
}
use skail.Routing.Usage.Marks.{
  Becomes, mark_call_succeeded-Becomes, mark_ambiguous-Becomes, mark_rejected-Becomes,
  record_call-Becomes,
}
use skail.Routing.Usage.Moves.{begin_call-Begins, begin_call-Becomes, store_of, settle_row-Becomes}
use skail.Routing.Usage.Sweeps.{IsDistinct, mark_unreturned-Becomes, reconcile-Becomes}
use skail.Routing.Usage.Accounted.{IsNoted, IsAccounted, is_noted}
use skail.Routing.Usage.Keeping.{Effects-IsAccounted}
use skail.Routing.Usage.Calls.{is_uncertain, is_failure_of, is_open_in}

-- The calls of the settler; `serving` is all that the rest of the program does to the assignments
-- and the ledger. A settlement may be refused, which leaves its failure.
pub data UsageStep (p : Percent) : UsageStore → UsageStore → Type 0 where
  beginning :
      {u u' : UsageStore} (call_id new_key assignment_id : String) (execution_key : Option String)
      (id : String)
      → begin_call call_id new_key assignment_id execution_key u ≡ ok (id, u')
      → UsageStep p u u'
  succeeding :
      {u u' : UsageStore} (id : String) → mark_call_succeeded id u ≡ ok u' → UsageStep p u u'
  doubting : {u u' : UsageStore} (id : String) → mark_ambiguous id u ≡ ok u' → UsageStep p u u'
  rejecting :
      {u u' : UsageStore} (id : String) (request_rejected : Bool)
      → mark_rejected id request_rejected u ≡ ok u'
      → UsageStep p u u'
  recording :
      {u u' : UsageStore} (read : String → Option (List (Option Tokens)))
      (assignment_id id : String)
      → record_call read assignment_id id u ≡ ok u'
      → UsageStep p u u'
  sweeping :
      {u : UsageStore} (assignment_id : String)
      → UsageStep p u (mark_unreturned_calls_ambiguous assignment_id u).1
  settling :
      {u : UsageStore} (a : AssignmentRow) (reconciled : Bool)
      → UsageStep p u (store_of (settle_row p a reconciled u))
  reconciling :
      {u : UsageStore} (session_id id : String) (done : CallReconciliationResult × UsageStore)
      → reconcile_ambiguous_call p session_id id u ≡ ok done
      → UsageStep p u done.1
  serving : {u : UsageStore} (st : Store) → UsageStep p u (record u { service = st })

pub data UsageHistory (p : Percent) (u : UsageStore) : UsageStore → Type 0 where
  start : UsageHistory p u u
  next : {v w : UsageStore} → UsageHistory p u v → UsageStep p v w → UsageHistory p u w

step-Becomes :
    {p : Percent} {u u' : UsageStore} → UsageStep p u u' → IsDistinct u.calls → Becomes u u'
step-Becomes {u = u} {u' = u'} (beginning call_id new_key a key id h) d =
    begin_call-Becomes call_id new_key a key u u' id h
step-Becomes {u = u} {u' = u'} (succeeding id h) d = mark_call_succeeded-Becomes id u u' h
step-Becomes {u = u} {u' = u'} (doubting id h) d = mark_ambiguous-Becomes id u u' h
step-Becomes {u = u} {u' = u'} (rejecting id b h) d = mark_rejected-Becomes id b u u' h
step-Becomes {u = u} {u' = u'} (recording read a id h) d = record_call-Becomes read a id u u' h
step-Becomes {u = u} (sweeping a) d = mark_unreturned-Becomes a u d
step-Becomes {p = p} {u = u} (settling a reconciled) d = settle_row-Becomes p a reconciled u
step-Becomes {p = p} {u = u} (reconciling session_id id done h) d =
    reconcile-Becomes p session_id id u done h
step-Becomes (serving st) d = untouched

abbrev pub Accounts : UsageStore → Type 0
Accounts u = IsAccounted u.calls u.failures

pub history-Becomes :
    {p : Percent} {u u' : UsageStore}
    → UsageHistory p u u'
    → Accounts u
    → Becomes u u' × Accounts u'
history-Becomes start v = (untouched, v)
history-Becomes (next h s) v =
    let (e, w) = history-Becomes h v in
    let f = step-Becomes s w.distinct in (Effects-trans e f, Effects-IsAccounted f w)

-- A provider call that is completed, rejected or ambiguous keeps that status through any further
-- calls of the settler: a late mark, a late usage and a reconciliation never reclassify it.
pub closed_call_stays :
    {p : Percent} {u u' : UsageStore} (id : String)
    → UsageHistory p u u'
    → Accounts u
    → is_closed (status_at id u.calls) ≡ true
    → status_at id u'.calls ≡ status_at id u.calls
closed_call_stays id h v closed_before =
    Effects-keeps_closed id (history-Becomes h v).0 closed_before

abbrev is_estimated_for : String → String → Failure → Bool
is_estimated_for assignment_id call_id f = is_failure_of assignment_id call_id f && f.is_estimated

-- An ambiguous call of the run has a failure, and that is estimated.
abbrev pub IsReconciled : Store → String → List Failure → ProviderCall → Type 0
IsReconciled st run_id fs c =
    run_of st c.assignment_id ≡ some run_id
    → c.status ≡ ambiguous
    → any (is_estimated_for c.assignment_id c.call_id) fs ≡ true

neither : (a b : Bool) → a || b ≡ false → (a ≡ false) × (b ≡ false)
neither a b h = ground (arith, h)

both : (a b : Bool) → a && b ≡ true → (a ≡ true) × (b ≡ true)
both a b h = ground (arith, h)

reconciled_here :
    (st : Store) (run_id a id : String) (f : Failure)
    → is_run run_id (run_of st a) ≡ true
    → is_open_in st run_id f ≡ false
    → is_failure_of a id f ≡ true
    → is_estimated_for a id f ≡ true
reconciled_here st run_id a id f r o hit =
    let same = (eq_iff f.assignment_id a).0 (both _ _ hit).0 in
    let here = ap (λ b. is_run run_id (run_of st b)) same ∙ r in ground (arith, hit, o, here)

-- Where no failure of the run is open, a noted failure of the run is estimated.
estimated_noted :
    (st : Store) (run_id a id : String) (fs : List Failure)
    → is_run run_id (run_of st a) ≡ true
    → any (is_open_in st run_id) fs ≡ false
    → is_noted fs a id ≡ true
    → any (is_estimated_for a id) fs ≡ true
estimated_noted st run_id a id [] r o n = n
estimated_noted st run_id a id (f ∷ fs) r o n =
    let (o_here, o_later) = neither (is_open_in st run_id f) _ o in
    elim (Bool-cases (is_failure_of a id f)) [
      | inl hit ↦ ground (arith, reconciled_here st run_id a id f r o_here hit)
      | inr miss ↦
          ground (arith, estimated_noted st run_id a id fs r o_later (ground (arith, n, miss)))
    ]

all_estimated :
    (st : Store) (run_id : String) (fs : List Failure) (cs : List ProviderCall)
    → any (is_open_in st run_id) fs ≡ false
    → All (IsNoted fs) cs
    → All (IsReconciled st run_id fs) cs
all_estimated st run_id fs [] o n = tt
all_estimated st run_id fs (c ∷ cs) o n = (
  λ r e. estimated_noted st run_id c.assignment_id c.call_id fs (runs_in r) o (n.0 e),
  all_estimated st run_id fs cs o n.1,
)
  where
    runs_in :
        run_of st c.assignment_id ≡ some run_id → is_run run_id (run_of st c.assignment_id) ≡ true
    runs_in r = ap (is_run run_id) r ∙ eq_refl run_id

-- A call begins only when every ambiguous call of the same run has been reconciled by an estimate:
-- whatever calls the settler has had, from a store whose calls are distinct and noted, and however
-- the assignments changed in between.
pub begun-IsReconciled :
    {p : Percent} {u u' u'' : UsageStore} (call_id new_key assignment_id : String)
    (execution_key : Option String) (id run_id : String)
    → Accounts u
    → UsageHistory p u u'
    → begin_call call_id new_key assignment_id execution_key u' ≡ ok (id, u'')
    → run_of u'.service assignment_id ≡ some run_id
    → All (IsReconciled u'.service run_id u'.failures) u'.calls
unfolding is_uncertain
begun-IsReconciled {u' = u'} {u'' = u''} call_id new_key a key id run_id v h began owner =
    let (_, run, _, known, b) = begin_call-Begins call_id new_key a key u' u'' id began in
    let w = (history-Becomes h v).1 in
    all_estimated u'.service run_id u'.failures u'.calls
      (subst (λ r. is_uncertain u' r ≡ false) (same_text (sym known ∙ owner)) b.certain) w.noted
  where
    same_text : {s t : String} → some s ≡ some t → s ≡ t
    same_text e = ground (arith, e)
