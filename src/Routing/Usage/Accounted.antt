-- ===== src/Routing/Usage/Accounted.antt =====
-- An ambiguous call has a failure on record: the effects keep that.
use skail.Prelude.{
  ℕ, String, ◌≡◌, refl, sym, ◌∙◌, inl, inr, Bool, true, false, ◌||◌, Option, some, List, [], ◌∷◌,
  ◌++◌, arith, str_eq, eq_refl, any, if◌then◌else◌, Bool-cases, All,
}
use skail.Routing.Usage.Tables.{CallStatus, ambiguous, ProviderCall, Failure, set_call}
use skail.Routing.Usage.Calls.{has_call, note_failure, is_failure_of}
use skail.Routing.Usage.Reconciling.{set_estimated}
use skail.Routing.Usage.Sweeps.{IsDistinct}

abbrev pub is_noted : List Failure → String → String → Bool
is_noted failures assignment_id call_id = any (is_failure_of assignment_id call_id) failures

-- An ambiguous call of an assignment has its failure.
abbrev pub IsNoted : List Failure → ProviderCall → Type 0
IsNoted failures c = c.status ≡ ambiguous → is_noted failures c.assignment_id c.call_id ≡ true

pub record IsAccounted (calls : List ProviderCall) (failures : List Failure) : Type 0 where
  pub distinct : IsDistinct calls
  pub noted : All (IsNoted failures) calls

pub IsNotedSoon : List Failure → List Failure → Type 0
IsNotedSoon fs gs =
    (assignment_id call_id : String)
    → is_noted fs assignment_id call_id ≡ true
    → is_noted gs assignment_id call_id ≡ true

pub noted_more :
    (fs gs : List Failure) (cs : List ProviderCall)
    → IsNotedSoon fs gs
    → All (IsNoted fs) cs
    → All (IsNoted gs) cs
unfolding IsNotedSoon
noted_more fs gs [] m n = tt
noted_more fs gs (c ∷ cs) m n =
    (λ e. m c.assignment_id c.call_id (n.0 e), noted_more fs gs cs m n.1)

pub same_soon : (fs : List Failure) → IsNotedSoon fs fs
unfolding IsNotedSoon
same_soon fs a id h = h

pub same_noted :
    (fs : List Failure) {a b : String} {i j : String}
    → a ≡ b
    → i ≡ j
    → is_noted fs a i ≡ true
    → is_noted fs b j ≡ true
same_noted fs e f h = sym (λ i. is_noted fs (e i) (f i)) ∙ h

pub any-snoc :
    {A : Type 0} (p : A → Bool) (xs : List A) (x : A) → any p (xs ++ x ∷ []) ≡ (any p xs || p x)
any-snoc p [] x = ground arith
any-snoc p (y ∷ xs) x = ground (arith, any-snoc p xs x)

pub appended_noted : (fs : List Failure) (f : Failure) → IsNotedSoon fs (fs ++ f ∷ [])
unfolding IsNotedSoon
appended_noted fs f a id h = ground (arith, h, any-snoc (is_failure_of a id) fs f)

pub note_failure-noted : (a id : String) (fs : List Failure) → IsNotedSoon fs (note_failure a id fs)
unfolding IsNotedSoon note_failure
note_failure-noted a id fs b j h = elim (Bool-cases (any (is_failure_of a id) fs)) [
  | inl there ↦ rw there h
  | inr absent ↦ rw absent (
      ground (
        arith,
        h,
        any-snoc (is_failure_of b j) fs
            (record { assignment_id = a; call_id = some id; is_estimated = false }),
      ))
]

pub note_failure-notes :
    (a id : String) (fs : List Failure) → is_noted (note_failure a id fs) a id ≡ true
unfolding note_failure
note_failure-notes a id fs = elim (Bool-cases (any (is_failure_of a id) fs)) [
  | inl there ↦ rw there there
  | inr absent ↦ rw absent (
      ground (
        arith,
        eq_refl a,
        eq_refl id,
        any-snoc (is_failure_of a id) fs
            (record { assignment_id = a; call_id = some id; is_estimated = false }),
      ))
]

pub set_estimated-noted : (id : String) (fs : List Failure) → IsNotedSoon fs (set_estimated id fs)
unfolding IsNotedSoon set_estimated
set_estimated-noted id [] a j h = h
set_estimated-noted id (f ∷ fs) a j h = ground (arith, h, set_estimated-noted id fs a j)

-- What a rewritten row owes, where it becomes ambiguous.
abbrev pub Owes : String → CallStatus → List Failure → ProviderCall → Type 0
Owes id s gs c =
    str_eq c.call_id id ≡ true → s ≡ ambiguous → is_noted gs c.assignment_id c.call_id ≡ true

module _ (id : String) (s : CallStatus) (amount : Option ℕ) where
  has_call-set_call :
      (j : String) (cs : List ProviderCall) → has_call j (set_call id s amount cs) ≡ has_call j cs
  unfolding set_call
  has_call-set_call j [] = refl
  has_call-set_call j (c ∷ cs) = ground (arith, has_call-set_call j cs)

  pub set_call-IsDistinct :
      (cs : List ProviderCall) → IsDistinct cs → IsDistinct (set_call id s amount cs)
  unfolding set_call
  set_call-IsDistinct [] d = tt
  set_call-IsDistinct (c ∷ cs) d = (
    same_id (str_eq c.call_id id) (has_call-set_call c.call_id cs ∙ d.0),
    set_call-IsDistinct cs d.1,
  )
    where
      same_id :
          (hit : Bool)
          → has_call c.call_id (set_call id s amount cs) ≡ false
          → has_call
              (if hit then record c { status = s; amount_usd = amount } else c).call_id
              (set_call id s amount cs)
            ≡ false
      same_id true h = h
      same_id false h = h

  pub set_call-noted :
      (fs gs : List Failure) (cs : List ProviderCall)
      → IsNotedSoon fs gs
      → All (Owes id s gs) cs
      → All (IsNoted fs) cs
      → All (IsNoted gs) (set_call id s amount cs)
  unfolding set_call IsNotedSoon
  set_call-noted fs gs [] m o n = tt
  set_call-noted fs gs (c ∷ cs) m o n = (
    elim (Bool-cases (str_eq c.call_id id)) [
      | inl hit ↦ rw hit (λ e. o.0 hit e)
      | inr miss ↦ rw miss (λ e. m c.assignment_id c.call_id (n.0 e))
    ],
    set_call-noted fs gs cs m o.1 n.1,
  )
