-- ===== src/Routing/Usage/Keeping.antt =====
-- The effects keep the accounts: distinct calls, whose ambiguous ones have failures.
use skail.Prelude.{
  String, ◌≡◌, refl, sym, subst, ◌∙◌, ap, false, ◌||◌, Option, List, [], ◌∷◌, ◌++◌, arith, str_eq,
  eq_iff, All,
}
use skail.Routing.Usage.Tables.{
  CallStatus, completed, ambiguous, rejected, ProviderCall, Failure, find_call,
}
use skail.Routing.Usage.Calls.{has_call, note_failure}
use skail.Routing.Usage.Effects.{
  Effects, untouched, begun, closed, doubted, refused, estimated, IsOpenFor, MayBecome,
}
use skail.Routing.Usage.Sweeps.{IsDistinct, FindsItself, all_find}
use skail.Routing.Usage.Accounted.{
  IsNoted, IsAccounted, noted_more, appended_noted, note_failure-noted, note_failure-notes,
  set_estimated-noted, Owes, set_call-IsDistinct, set_call-noted, same_noted, same_soon,
}

snoc-IsDistinct :
    (cs : List ProviderCall) (c : ProviderCall)
    → IsDistinct cs
    → has_call c.call_id cs ≡ false
    → IsDistinct (cs ++ c ∷ [])
snoc-IsDistinct [] c d h = (refl, tt)
snoc-IsDistinct (x ∷ cs) c d h = (
  ground (
    arith,
    d.0,
    h,
    eq_iff c.call_id x.call_id,
    eq_iff x.call_id c.call_id,
    has_call-snoc x.call_id cs,
  ),
  snoc-IsDistinct cs c d.1 (ground (arith, h)),
)
  where
    has_call-snoc :
        (id : String) (l : List ProviderCall)
        → has_call id (l ++ c ∷ []) ≡ (has_call id l || str_eq c.call_id id)
    has_call-snoc id [] = ground arith
    has_call-snoc id (y ∷ l) = ground (arith, has_call-snoc id l)

snoc_noted :
    (fs : List Failure) (cs : List ProviderCall) (c : ProviderCall)
    → All (IsNoted fs) cs
    → IsNoted fs c
    → All (IsNoted fs) (cs ++ c ∷ [])
snoc_noted fs [] c n new = (new, tt)
snoc_noted fs (x ∷ cs) c n new = (n.0, snoc_noted fs cs c n.1 new)

-- Nothing is owed where a row becomes completed or rejected.
nothing_owed :
    (id : String) (s : CallStatus) (o : Option CallStatus) (fs : List Failure)
    (cs : List ProviderCall)
    → MayBecome s o
    → All (Owes id s fs) cs
nothing_owed id s o fs [] may = tt
nothing_owed id CallStatus.completed o fs (c ∷ cs) may =
    ((λ hit e. cc), nothing_owed id completed o fs cs may)
nothing_owed id CallStatus.rejected o fs (c ∷ cs) may =
    ((λ hit e. cc), nothing_owed id rejected o fs cs may)
nothing_owed id CallStatus.started o fs (c ∷ cs) may = elim may [ ]
nothing_owed id CallStatus.ambiguous o fs (c ∷ cs) may = elim may [ ]

-- The row that becomes ambiguous is the one whose failure is noted.
paid_by_note :
    (id a : String) (fs : List Failure) (all rows : List ProviderCall)
    → IsOpenFor a (find_call id all)
    → All (FindsItself all) rows
    → All (Owes id ambiguous (note_failure a id fs)) rows
paid_by_note id a fs all [] may f = tt
paid_by_note id a fs all (c ∷ rows) may f = (
  λ hit e.
      let same = (eq_iff c.call_id id).0 hit in
      let owner = subst (IsOpenFor a) (ap (λ j. find_call j all) (sym same) ∙ f.0) may in
      same_noted (note_failure a id fs) (sym owner.0) (sym same) (note_failure-notes a id fs),
  paid_by_note id a fs all rows may f.1,
)

pub Effects-IsAccounted :
    {calls : List ProviderCall} {failures : List Failure} {cs : List ProviderCall}
    {fs : List Failure}
    → Effects calls failures cs fs
    → IsAccounted calls failures
    → IsAccounted cs fs
Effects-IsAccounted untouched v = v
Effects-IsAccounted (begun {cs} {fs} e c absent s) v =
    let w = Effects-IsAccounted e v in
    record {
      distinct = snoc-IsDistinct cs c w.distinct absent;
      noted = snoc_noted fs cs c w.noted (λ d. cc (s, d));
    }
Effects-IsAccounted (closed {cs} {fs} e id s amount may) v =
    let w = Effects-IsAccounted e v in
    record {
      distinct = set_call-IsDistinct id s amount cs w.distinct;
      noted =
          set_call-noted id s amount fs fs cs (same_soon fs) (nothing_owed id s _ fs cs may)
            w.noted;
    }
Effects-IsAccounted (doubted {cs} {fs} e id a amount may) v =
    let w = Effects-IsAccounted e v in
    record {
      distinct = set_call-IsDistinct id ambiguous amount cs w.distinct;
      noted =
          set_call-noted id ambiguous amount fs _ cs (note_failure-noted a id fs)
            (paid_by_note id a fs cs cs may (all_find cs w.distinct)) w.noted;
    }
Effects-IsAccounted (refused {cs} {fs} e a) v =
    let w = Effects-IsAccounted e v in
    record { distinct = w.distinct; noted = noted_more fs _ cs (appended_noted fs _) w.noted }
Effects-IsAccounted (estimated {cs} {fs} e id) v =
    let w = Effects-IsAccounted e v in
    record { distinct = w.distinct; noted = noted_more fs _ cs (set_estimated-noted id fs) w.noted }
