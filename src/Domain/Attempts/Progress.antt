-- ===== src/Domain/Attempts/Progress.antt =====
-- An attempt only moves forward.
use skail.Prelude.{
  ℕ, ◌+◌, ◌≤◌, ◌<◌, ◌≡◌, ◌⊎◌, inl, inr, arith, List, [], ◌∷◌, ok, err, if◌then◌else◌, Result-cases,
}
use skail.Domain.Attempts.{AttemptStatus, assigned, running, status_eq, transition_attempt}

-- How far an attempt is through its life.
abbrev stage : AttemptStatus → ℕ
stage assigned = 0
stage running = 1
stage _ = 2

stage-transition :
    (c t r : AttemptStatus)
    → transition_attempt c t ≡ ok r
    → (r ≡ t) × ((c ≡ t) ⊎ (stage c < stage t))
unfolding transition_attempt
stage-transition assigned t r h = ground arith
stage-transition _ t r h = ground arith

-- The statuses that a history of accepted transitions goes through, refused ones left out.
abbrev pub changes : AttemptStatus → List AttemptStatus → ℕ
changes c [] = 0
changes c (t ∷ ts) = elim (transition_attempt c t) [
  | ok r ↦ (if status_eq c r then 0 else 1) + changes r ts
  | err e ↦ changes c ts
]

stage-changes-le : (c : AttemptStatus) (ts : List AttemptStatus) → changes c ts + stage c ≤ 2
stage-changes-le c [] = ground arith
stage-changes-le c (t ∷ ts) = elim (Result-cases (transition_attempt c t)) [
  | inl (r, e) ↦ rw (e, changes) (ground (arith, stage-transition c t r e, stage-changes-le r ts))
  | inr (x, e) ↦ rw (e, changes) (stage-changes-le c ts)
]

-- Whatever transitions are asked for, refused ones included, an attempt changes its status at
-- most twice, and at most once from running.
changes_bounded : (ts : List AttemptStatus) → (changes assigned ts ≤ 2) × (changes running ts ≤ 1)
changes_bounded ts = omega (arith, stage-changes-le assigned ts, stage-changes-le running ts)
