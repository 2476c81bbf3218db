-- ===== src/Runtime/Monitor/Answers.antt =====
-- What the monitor answers, against an unbounded record of the run.
use skail.Prelude.{
  ℕ, ◌+◌, String, ◌≡◌, refl, Bool, true, false, ◌&&◌, Option, none, some, List, [], ◌∷◌, arith,
  str_eq, str_append, eq_iff, if◌then◌else◌, leb,
}
use skail.Prelude.Dict.{get, get-put, count_of}
use skail.Prelude.Sets.{contains}
use skail.Runtime.Monitor.{
  FailureMonitor, Failure, monitor, append_bounded, is_thrice, observe_call, observe_error,
  error_key, observe_success, discard_call_window, observe_progress,
}

-- The calls since the window was last dropped, the last one first; the keys of all errors; and the
-- errors in a row.
pub record Log : Type 0 where
  pub window : List String
  pub errors : List String
  pub streak : ℕ

abbrev pub empty_log : Log
empty_log = record { window = []; errors = []; streak = 0 }

abbrev ends_alike : List String → Bool
ends_alike (a ∷ b ∷ c ∷ older) = str_eq a b && str_eq b c
ends_alike _ = false

abbrev last_three : List String → List String
last_three [] = []
last_three (a ∷ []) = a ∷ []
last_three (a ∷ b ∷ []) = b ∷ a ∷ []
last_three (a ∷ b ∷ c ∷ older) = c ∷ b ∷ a ∷ []

append_bounded_last :
    (w : List String) (x : String) → append_bounded (last_three w) x ≡ last_three (x ∷ w)
unfolding append_bounded
append_bounded_last [] x = refl
append_bounded_last (a ∷ []) x = refl
append_bounded_last (a ∷ b ∷ []) x = refl
append_bounded_last (a ∷ b ∷ c ∷ w) x = refl

is_thrice_ends : (w : List String) → is_thrice (last_three w) ≡ ends_alike w
unfolding is_thrice
is_thrice_ends [] = refl
is_thrice_ends (a ∷ []) = refl
is_thrice_ends (a ∷ b ∷ []) = refl
is_thrice_ends (a ∷ b ∷ c ∷ w) = ground (arith, eq_iff a b, eq_iff b c, eq_iff c b, eq_iff c a)

abbrev occurrences : List String → String → ℕ
occurrences [] k = 0
occurrences (x ∷ xs) k = (if str_eq x k then 1 else 0) + occurrences xs k

contains_occurs : (xs : List String) (k : String) → contains xs k ≡ leb 1 (occurrences xs k)
unfolding contains
contains_occurs [] k = refl
contains_occurs (x ∷ xs) k = ground (arith, contains_occurs xs k)

record Represents (m : FailureMonitor) (g : Log) : Type 0 where
  last : m.calls ≡ last_three g.window
  counted : (k : String) → count_of m.error_counts k ≡ occurrences g.errors k
  row : m.consecutive_errors ≡ g.streak

module _ {A E : Type 0} (canonical : A → String) (normalize : E → String) where
  pub data Event : Type 0 where
    call : String → A → Bool → Event
    error : E → Bool → Option String → Event
    success discard progress : Event

  abbrev observe : FailureMonitor → Event → FailureMonitor × Option Failure
  observe m (call name arguments executed) =
      observe_call canonical normalize m name arguments executed
  observe m (error e blocked tool) = observe_error canonical normalize m e blocked tool
  observe m success = (observe_success m, none)
  observe m discard = (discard_call_window m, none)
  observe m progress = (observe_progress m, none)

  abbrev note_call : Log → String → Log × Option Failure
  note_call g value = (
    record g { window = value ∷ g.window },
    if ends_alike (value ∷ g.window) then some Failure.repeated_call else none,
  )

  abbrev note_error : Log → String → Log × Option Failure
  note_error g key = (
    record g { errors = key ∷ g.errors; streak = g.streak + 1 },
    if contains g.errors key
        then some Failure.repeated_error
        else if leb 1 g.streak
        then some Failure.consecutive_errors
        else none,
  )

  abbrev pub note : Log → Event → Log × Option Failure
  note g (call name arguments true) =
      note_call g (str_append (str_append name ":") (canonical arguments))
  note g (call name arguments false) = (g, none)
  note g (error e true tool) = (record g { streak = 0 }, none)
  note g (error e false tool) = note_error g (error_key canonical normalize tool e)
  note g success = (record g { window = []; streak = 0 }, none)
  note g discard = (record g { window = [] }, none)
  note g progress = (record g { streak = 0 }, none)

  abbrev pub answers : FailureMonitor → List Event → List (Option Failure)
  answers m [] = []
  answers m (e ∷ es) = (observe m e).1 ∷ answers (observe m e).0 es

  abbrev pub noted : Log → List Event → List (Option Failure)
  noted g [] = []
  noted g (e ∷ es) = (note g e).1 ∷ noted (note g e).0 es

  call_agrees :
      (m : FailureMonitor) (g : Log) (name : String) (a : A)
      → Represents m g
      → Represents (observe m (call name a true)).0 (note g (call name a true)).0
        × ((observe m (call name a true)).1 ≡ (note g (call name a true)).1)
  unfolding observe_call
  call_agrees m g name a r =
      rw (r.last, append_bounded_last, is_thrice_ends)
        (record { last = refl; counted = r.counted; row = r.row }, refl)

  error_agrees :
      (m : FailureMonitor) (g : Log) (e : E) (tool : Option String)
      → Represents m g
      → Represents (observe m (error e false tool)).0 (note g (error e false tool)).0
        × ((observe m (error e false tool)).1 ≡ (note g (error e false tool)).1)
  unfolding observe_error
  error_agrees m g e tool r =
      let key = error_key canonical normalize tool e in
      (
        record {
          last = r.last;
          counted = λ k. ground (
            arith,
            get-put (count_of m.error_counts key + 1) key k m.error_counts,
            r.counted k,
            r.counted key,
            eq_iff key k,
          );
          row = omega (arith, r.row);
        },
        ground (arith, r.counted key, r.row, contains_occurs g.errors key),
      )

  agrees :
      (m : FailureMonitor) (g : Log) (e : Event)
      → Represents m g
      → Represents (observe m e).0 (note g e).0 × ((observe m e).1 ≡ (note g e).1)
  unfolding observe_call observe_error observe_success discard_call_window observe_progress
  agrees m g (call name a true) r = call_agrees m g name a r
  agrees m g (call name a false) r = (r, refl)
  agrees m g (error e true tool) r =
      (record { last = r.last; counted = r.counted; row = refl }, refl)
  agrees m g (error e false tool) r = error_agrees m g e tool r
  agrees m g success r = (record { last = refl; counted = r.counted; row = refl }, refl)
  agrees m g discard r = (record { last = refl; counted = r.counted; row = r.row }, refl)
  agrees m g progress r = (record { last = r.last; counted = r.counted; row = refl }, refl)

  answers_agree_from :
      (m : FailureMonitor) (g : Log) (es : List Event) → Represents m g → answers m es ≡ noted g es
  answers_agree_from m g [] r = refl
  answers_agree_from m g (e ∷ es) r =
      let (r', same) = agrees m g e r in
      rw (same, answers_agree_from (observe m e).0 (note g e).0 es r') refl

  -- In any sequence of calls, errors and resets, the monitor, which keeps three calls and a count
  -- per error, answers as the unbounded record does: repeated_call exactly when the last three
  -- executed calls of the window are the same; repeated_error when the same error came before in
  -- the run; else consecutive_errors when the error before it was not followed by a reset.
  pub answers_agree :
      (max_calls max_seconds max_budget_usd : Option ℕ) (es : List Event)
      → answers (monitor max_calls max_seconds max_budget_usd) es ≡ noted empty_log es
  unfolding monitor get
  answers_agree c t b es =
      answers_agree_from (monitor c t b) empty_log es
        (record { last = refl; counted = λ k. refl; row = refl })
