-- ===== src/Routing/Usage/Effects.antt =====
-- What the operations do to the calls and the failures: the few ways in which rows change.
use skail.Prelude.{
  ℕ, String, ◌≡◌, refl, sym, subst, ◌∙◌, ap, ◌⊎◌, inl, inr, Bool, true, false, not, Option, none,
  some, List, [], ◌∷◌, ◌++◌, arith, str_eq, eq_iff, if◌then◌else◌,
}
use skail.Routing.Usage.Tables.{
  CallStatus, started, completed, ambiguous, call_eq, ProviderCall, Failure, find_call, set_call,
}
use skail.Routing.Usage.Calls.{has_call, note_failure}
use skail.Routing.Usage.Reconciling.{set_estimated}

abbrev pub status_of : Option ProviderCall → Option CallStatus
status_of none = none
status_of (some c) = some c.status

-- The status of a call on file.
abbrev pub status_at : String → List ProviderCall → Option CallStatus
status_at id calls = status_of (find_call id calls)

-- A call that may still turn out either way, or is ambiguous already; of this assignment.
abbrev pub IsOpenFor : String → Option ProviderCall → Type 0
IsOpenFor assignment_id none = ⊥
IsOpenFor assignment_id (some c) =
    (c.assignment_id ≡ assignment_id) × ((c.status ≡ started) ⊎ (c.status ≡ ambiguous))

-- A status that a call may be given beside "ambiguous".
abbrev pub MayBecome : CallStatus → Option CallStatus → Type 0
MayBecome CallStatus.completed s = (s ≡ some started) ⊎ (s ≡ some completed)
MayBecome CallStatus.rejected s = s ≡ some started
MayBecome _ s = ⊥

pub data Effects (calls : List ProviderCall) (failures : List Failure)
    : List ProviderCall → List Failure → Type 0 where
  untouched : Effects calls failures calls failures
  begun :
      {cs : List ProviderCall} {fs : List Failure}
      → Effects calls failures cs fs
      → (c : ProviderCall) → has_call c.call_id cs ≡ false
      → c.status ≡ started
      → Effects calls failures (cs ++ c ∷ []) fs
  closed :
      {cs : List ProviderCall} {fs : List Failure}
      → Effects calls failures cs fs
      → (id : String) (s : CallStatus) (amount : Option ℕ) → MayBecome s (status_at id cs)
      → Effects calls failures (set_call id s amount cs) fs
  doubted :
      {cs : List ProviderCall} {fs : List Failure}
      → Effects calls failures cs fs
      → (id assignment_id : String) (amount : Option ℕ) → IsOpenFor assignment_id (find_call id cs)
      → Effects calls failures (set_call id ambiguous amount cs) (note_failure assignment_id id fs)
  refused :
      {cs : List ProviderCall} {fs : List Failure}
      → Effects calls failures cs fs
      → (assignment_id : String)
      → Effects calls failures cs (
          fs ++ record { assignment_id = assignment_id; call_id = none; is_estimated = false } ∷ [])
  estimated :
      {cs : List ProviderCall} {fs : List Failure}
      → Effects calls failures cs fs
      → (id : String) → Effects calls failures cs (set_estimated id fs)

-- A written call keeps its identities; the others are untouched.
abbrev pub rewritten : Bool → CallStatus → Option ℕ → Option ProviderCall → Option ProviderCall
rewritten hit s amount none = none
rewritten hit s amount (some c) =
    some (if hit then record c { status = s; amount_usd = amount } else c)

pub find_call-set_call :
    (id written : String) (s : CallStatus) (amount : Option ℕ) (calls : List ProviderCall)
    → find_call id (set_call written s amount calls)
      ≡ rewritten (str_eq written id) s amount (find_call id calls)
unfolding find_call set_call
find_call-set_call id written s amount [] = refl
find_call-set_call id written s amount (c ∷ calls) = ground (
  arith,
  find_call-set_call id written s amount calls,
  eq_iff c.call_id written,
  eq_iff c.call_id id,
  eq_iff written id,
)

find_call-absent :
    (id : String) (calls : List ProviderCall)
    → has_call id calls ≡ false
    → find_call id calls ≡ none
unfolding find_call
find_call-absent id [] h = refl
find_call-absent id (c ∷ calls) h = ground (arith, h, find_call-absent id calls)

abbrev or_last : Option ProviderCall → Bool → ProviderCall → Option ProviderCall
or_last none hit c = if hit then some c else none
or_last (some d) hit c = some d

find_call-snoc :
    (id : String) (calls : List ProviderCall) (c : ProviderCall)
    → find_call id (calls ++ c ∷ []) ≡ or_last (find_call id calls) (str_eq c.call_id id) c
unfolding find_call
find_call-snoc id [] c = refl
find_call-snoc id (d ∷ calls) c = ground (arith, find_call-snoc id calls c)

abbrev pub is_closed : Option CallStatus → Bool
is_closed none = false
is_closed (some s) = not (call_eq s started)

module _ (id : String) where
  abbrev KeepsClosed : Option ProviderCall → Option ProviderCall → Type 0
  KeepsClosed before after =
      is_closed (status_of before) ≡ true → status_of after ≡ status_of before

  appended_keeps :
      (o : Option ProviderCall) (hit : Bool) (c : ProviderCall) → KeepsClosed o (or_last o hit c)
  appended_keeps none hit c h = cc
  appended_keeps (some d) hit c h = refl

  closed_keeps :
      (o : Option ProviderCall) (hit : Bool) (s : CallStatus) (amount : Option ℕ)
      → (hit ≡ true → MayBecome s (status_of o))
      → KeepsClosed o (rewritten hit s amount o)
  closed_keeps none hit s amount may h = cc
  closed_keeps (some c) false s amount may h = refl
  closed_keeps (some c) true CallStatus.completed amount may h = elim (may refl) [
    | inl e ↦ ground (arith, h, e)
    | inr e ↦ sym e
  ]
  closed_keeps (some c) true CallStatus.rejected amount may h =
      let e = may refl in ground (arith, h, e)
  closed_keeps (some c) true CallStatus.started amount may h = elim (may refl) [ ]
  closed_keeps (some c) true CallStatus.ambiguous amount may h = elim (may refl) [ ]

  doubted_keeps :
      (o : Option ProviderCall) (hit : Bool) (assignment_id : String) (amount : Option ℕ)
      → (hit ≡ true → IsOpenFor assignment_id o)
      → KeepsClosed o (rewritten hit ambiguous amount o)
  doubted_keeps none hit a amount may h = cc
  doubted_keeps (some c) false a amount may h = refl
  doubted_keeps (some c) true a amount may h = elim (may refl).1 [
    | inl e ↦ ground (arith, h, e)
    | inr e ↦ ground (arith, h, e)
  ]

  keeps_trans :
      (a b : Option CallStatus) (o : Option ProviderCall)
      → b ≡ a
      → is_closed a ≡ true
      → (is_closed b ≡ true → status_of o ≡ b)
      → status_of o ≡ a
  keeps_trans a b o e h f = f (ap is_closed e ∙ h) ∙ e

  -- A closed status is never changed.
  pub Effects-keeps_closed :
      {calls : List ProviderCall} {failures : List Failure} {cs : List ProviderCall}
      {fs : List Failure}
      → Effects calls failures cs fs
      → is_closed (status_at id calls) ≡ true
      → status_at id cs ≡ status_at id calls
  Effects-keeps_closed untouched h = refl
  Effects-keeps_closed {calls} (begun {cs} e c absent s) h =
      keeps_trans (status_at id calls) (status_at id cs) _ (Effects-keeps_closed e h) h (
        subst (KeepsClosed (find_call id cs)) (sym (find_call-snoc id cs c))
          (appended_keeps (find_call id cs) _ c))
  Effects-keeps_closed {calls} (closed {cs} e w s amount may) h =
      keeps_trans (status_at id calls) (status_at id cs) _ (Effects-keeps_closed e h) h (
        subst (KeepsClosed (find_call id cs)) (sym (find_call-set_call id w s amount cs)) (
          closed_keeps (find_call id cs) _ s amount
            (λ hit. subst (λ j. MayBecome s (status_at j cs)) ((eq_iff w id).0 hit) may)))
  Effects-keeps_closed {calls} (doubted {cs} e w a amount may) h =
      keeps_trans (status_at id calls) (status_at id cs) _ (Effects-keeps_closed e h) h (
        subst (KeepsClosed (find_call id cs)) (sym (find_call-set_call id w ambiguous amount cs)) (
          doubted_keeps (find_call id cs) _ a amount
            (λ hit. subst (λ j. IsOpenFor a (find_call j cs)) ((eq_iff w id).0 hit) may)))
  Effects-keeps_closed (refused e a) h = Effects-keeps_closed e h
  Effects-keeps_closed (estimated e w) h = Effects-keeps_closed e h

pub Effects-trans :
    {calls ds : List ProviderCall} {failures gs : List Failure} {cs : List ProviderCall}
    {fs : List Failure}
    → Effects calls failures ds gs
    → Effects ds gs cs fs
    → Effects calls failures cs fs
Effects-trans e untouched = e
Effects-trans e (begun f c absent s) = begun (Effects-trans e f) c absent s
Effects-trans e (closed f id s amount may) = closed (Effects-trans e f) id s amount may
Effects-trans e (doubted f id a amount may) = doubted (Effects-trans e f) id a amount may
Effects-trans e (refused f a) = refused (Effects-trans e f) a
Effects-trans e (estimated f id) = estimated (Effects-trans e f) id
