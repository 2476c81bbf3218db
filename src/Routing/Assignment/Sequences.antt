-- ===== src/Routing/Assignment/Sequences.antt =====
-- The sequence numbers of a run's events, as the appends choose them.
use skail.Prelude.{
  ℕ, ◌+◌, ◌≤◌, ◌<◌, String, ◌≡◌, true, List, [], ◌∷◌, ◌++◌, arith, refl, sym, ◌∙◌, str_eq, eq_iff,
  All,
}
use skail.Routing.Assignment.Tables.{Event, EventPayload}
use skail.Routing.Assignment.Persisting.{last_sequence, numbered, append_events}

-- In each run an event's number is less than those of the later events.
abbrev pub IsOrdered : List Event → Type 0
IsOrdered [] = Unit
IsOrdered (e ∷ events) =
    All (λ (f : Event). str_eq f.run_id e.run_id ≡ true → e.sequence < f.sequence) events
    × IsOrdered events

module _ (run_id : String) where
  -- The events of the run have numbers up to `last`; and all events are of the run, and beyond it.
  abbrev IsUpTo : ℕ → List Event → Type 0
  IsUpTo last = All (λ (e : Event). str_eq e.run_id run_id ≡ true → e.sequence ≤ last)

  abbrev IsBeyond : ℕ → List Event → Type 0
  IsBeyond last = All (λ (e : Event). (e.run_id ≡ run_id) × (last < e.sequence))

  IsUpTo-weaken : (m n : ℕ) (events : List Event) → m ≤ n → IsUpTo m events → IsUpTo n events
  IsUpTo-weaken m n [] le up = tt
  IsUpTo-weaken m n (e ∷ events) le up =
      (λ same. omega (arith, le, up.0 same), IsUpTo-weaken m n events le up.1)

  last_sequence-IsUpTo : (events : List Event) → IsUpTo (last_sequence run_id events) events
  unfolding last_sequence
  last_sequence-IsUpTo [] = tt
  last_sequence-IsUpTo (e ∷ events) = (
    λ same. ground (arith, same),
    IsUpTo-weaken (last_sequence run_id events) _ events (ground arith)
        (last_sequence-IsUpTo events),
  )

  IsBeyond-weaken : (m n : ℕ) (events : List Event) → m ≤ n → IsBeyond n events → IsBeyond m events
  IsBeyond-weaken m n [] le b = tt
  IsBeyond-weaken m n (e ∷ events) le b =
      ((b.0.0, omega (arith, le, b.0.1)), IsBeyond-weaken m n events le b.1)

  numbered-IsBeyond :
      (last : ℕ) (payloads : List EventPayload) → IsBeyond last (numbered run_id last payloads)
  unfolding numbered
  numbered-IsBeyond last [] = tt
  numbered-IsBeyond last (x ∷ payloads) = (
    (refl, omega arith),
    IsBeyond-weaken last (last + 1) _ (omega arith) (numbered-IsBeyond (last + 1) payloads),
  )

  beyond_later :
      (n : ℕ) (events : List Event)
      → IsBeyond n events
      → All (λ (f : Event). str_eq f.run_id run_id ≡ true → n < f.sequence) events
  beyond_later n [] b = tt
  beyond_later n (e ∷ events) b = (λ same. b.0.1, beyond_later n events b.1)

  numbered-IsOrdered :
      (last : ℕ) (payloads : List EventPayload) → IsOrdered (numbered run_id last payloads)
  unfolding numbered
  numbered-IsOrdered last [] = tt
  numbered-IsOrdered last (x ∷ payloads) = (
    beyond_later (last + 1) _ (numbered-IsBeyond (last + 1) payloads),
    numbered-IsOrdered (last + 1) payloads,
  )

  All-append : (P : Event → Type 0) (xs ys : List Event) → All P xs → All P ys → All P (xs ++ ys)
  All-append P [] ys a b = b
  All-append P (x ∷ xs) ys a b = (a.0, All-append P xs ys a.1 b)

  before_beyond :
      (e : Event) (last : ℕ) (ys : List Event)
      → (str_eq e.run_id run_id ≡ true → e.sequence ≤ last)
      → IsBeyond last ys
      → All (λ (f : Event). str_eq f.run_id e.run_id ≡ true → e.sequence < f.sequence) ys
  before_beyond e last [] up b = tt
  before_beyond e last (y ∷ ys) up b = (
    λ same. omega (
      arith,
      b.0.1,
      up ((eq_iff e.run_id run_id).1 (sym ((eq_iff y.run_id e.run_id).0 same) ∙ b.0.0)),
    ),
    before_beyond e last ys up b.1,
  )

  IsOrdered-append :
      (last : ℕ) (xs ys : List Event)
      → IsOrdered xs
      → IsUpTo last xs
      → IsOrdered ys
      → IsBeyond last ys
      → IsOrdered (xs ++ ys)
  IsOrdered-append last [] ys o up p b = p
  IsOrdered-append last (x ∷ xs) ys o up p b = (
    All-append _ xs ys o.0 (before_beyond x last ys up.0 b),
    IsOrdered-append last xs ys o.1 up.1 p b,
  )

  pub append_events-IsOrdered :
      (payloads : List EventPayload) (events : List Event)
      → IsOrdered events
      → IsOrdered (append_events run_id payloads events)
  unfolding append_events
  append_events-IsOrdered payloads events o =
      let last = last_sequence run_id events in
      IsOrdered-append last events _ o (last_sequence-IsUpTo events)
        (numbered-IsOrdered last payloads) (numbered-IsBeyond last payloads)
