-- ===== src/Sessions/Recovery/Attempts.antt =====
-- The attempts and the reservations that a recovery leaves, described row by row.
use skail.Prelude.{
  String, ◌≡◌, refl, sym, ap, ◌∙◌, inl, inr, Bool, true, false, ◌&&◌, ◌||◌, List, [], ◌∷◌, map,
  arith, str_eq, eq_iff, eq_refl, if◌then◌else◌, keep, any, All, Bool-cases,
}
use skail.Prelude.Sets.{contains}
use skail.Domain.Attempts.{AttemptStatus}
use skail.Sessions.Recovery.Tables.{AttemptRow, TaskRow, Journal, is_active}
use skail.Sessions.Recovery.Passes.{
  interrupt, Pass, is_open_attempt, is_lost, attempt_pass, attempt_step, protected, lost_attempt,
  task_step, task_pass, both_passes, initial_pass, recover,
}

-- No two attempts share an identity.
abbrev pub IsDistinct : List AttemptRow → Type 0
IsDistinct [] = Unit
IsDistinct (a ∷ rows) = All (λ b. str_eq a.attempt_id b.attempt_id ≡ false) rows × IsDistinct rows

map-All : {A B : Type 0} (f g : A → B) (xs : List A) → All (λ x. f x ≡ g x) xs → map f xs ≡ map g xs
map-All f g [] h = refl
map-All f g (x ∷ xs) h = ground (arith, h.0, map-All f g xs h.1)

pub map-map :
    {A B C : Type 0} (f : B → C) (g : A → B) (xs : List A)
    → map f (map g xs) ≡ map (λ x. f (g x)) xs
map-map f g [] = refl
map-map f g (x ∷ xs) = ap (λ l. f (g x) ∷ l) (map-map f g xs)

pub map-id : {A : Type 0} (xs : List A) → map (λ x. x) xs ≡ xs
map-id [] = refl
map-id (x ∷ xs) = ap (λ l. x ∷ l) (map-id xs)

pub any-keep :
    {A : Type 0} (p s : A → Bool) (xs : List A) → any p (keep s xs) ≡ any (λ x. s x && p x) xs
any-keep p s [] = refl
any-keep p s (x ∷ xs) = ground (arith, any-keep p s xs)

module _ (live_keys : List String) where
  -- what the pass over the attempts does to one of them
  abbrev after_rows : List AttemptRow → AttemptRow → AttemptRow
  after_rows [] a = a
  after_rows (r ∷ rows) a =
      after_rows rows (if contains live_keys r.idempotency_key then a else interrupt r.attempt_id a)

  abbrev after_row : AttemptRow → AttemptRow → AttemptRow
  after_row r a = if contains live_keys r.idempotency_key then a else interrupt r.attempt_id a

  attempt_step-attempts :
      (r : AttemptRow) (p : Pass)
      → (attempt_step live_keys r p).attempts ≡ map (after_row r) p.attempts
  attempt_step-attempts r p = stepped (contains live_keys r.idempotency_key)
    where
      stepped :
          (b : Bool)
          → (if b then protected r p else lost_attempt r p).attempts
            ≡ map (λ a. if b then a else interrupt r.attempt_id a) p.attempts
      stepped true = sym (map-id p.attempts)
      stepped false = refl

  attempt_pass-attempts :
      (rows : List AttemptRow) (p : Pass)
      → (attempt_pass live_keys rows p).attempts ≡ map (after_rows rows) p.attempts
  unfolding attempt_pass
  attempt_pass-attempts [] p = sym (map-id p.attempts)
  attempt_pass-attempts (r ∷ rows) p =
      attempt_pass-attempts rows (attempt_step live_keys r p)
      ∙ ap (map (after_rows rows)) (attempt_step-attempts r p)
      ∙ map-map (after_rows rows) (after_row r) p.attempts

  abbrev interrupts : AttemptRow → AttemptRow → Bool
  interrupts a r = is_lost live_keys r && str_eq a.attempt_id r.attempt_id

  abbrev interrupted_if : Bool → AttemptRow → AttemptRow
  interrupted_if b a = if b then record a { status = AttemptStatus.interrupted } else a

  after_rows_inactive :
      (rows : List AttemptRow) (a : AttemptRow) → is_active a.status ≡ false → after_rows rows a ≡ a
  after_rows_inactive [] a h = refl
  after_rows_inactive (r ∷ rows) a h = elim (Bool-cases (contains live_keys r.idempotency_key)) [
    | inl live ↦ rw live (after_rows_inactive rows a h)
    | inr lost ↦
        rw lost (ap (after_rows rows) (untouched r.attempt_id) ∙ after_rows_inactive rows a h)
  ]
    where
      untouched : (id : String) → interrupt id a ≡ a
      untouched id = ground (arith, h)

  after_row-eq :
      (r a : AttemptRow) → after_row r a ≡ interrupted_if (is_active a.status && interrupts a r) a
  after_row-eq r a = ground arith

  distribute : (b c d : Bool) → b && c || b && d ≡ b && (c || d)
  distribute b c d = ground arith

  after_rows-eq :
      (rows : List AttemptRow) (a : AttemptRow)
      → after_rows rows a ≡ interrupted_if (is_active a.status && any (interrupts a) rows) a
  after_rows-eq [] a = ground arith
  after_rows-eq (r ∷ rows) a =
      ap (after_rows rows) (after_row-eq r a)
      ∙ continued (after_rows-eq rows a) (is_active a.status && interrupts a r)
      ∙ ap (λ b. interrupted_if b a)
          (distribute (is_active a.status) (interrupts a r) (any (interrupts a) rows))
    where
      continued :
          after_rows rows a ≡ interrupted_if (is_active a.status && any (interrupts a) rows) a
          → (b : Bool)
          → after_rows rows (interrupted_if b a)
            ≡ interrupted_if (b || is_active a.status && any (interrupts a) rows) a
      continued e true =
          after_rows_inactive rows (record a { status = AttemptStatus.interrupted }) refl
      continued e false = e

  -- Under distinct identities, a row interrupts itself or nothing.
  none_other :
      (q : AttemptRow → Bool) (a : AttemptRow) (rows : List AttemptRow)
      → All (λ b. str_eq a.attempt_id b.attempt_id ≡ false) rows
      → any (λ r. q r && interrupts a r) rows ≡ false
  none_other q a [] h = refl
  none_other q a (b ∷ rows) h = ground (arith, h.0, none_other q a rows h.1)

  own_row :
      (q : AttemptRow → Bool) (rows : List AttemptRow)
      → IsDistinct rows
      → All (λ a. any (λ r. q r && interrupts a r) rows ≡ (q a && is_lost live_keys a)) rows
  own_row q [] d = tt
  own_row q (a ∷ rows) d = (
    ground (arith, none_other q a rows d.0, eq_refl a.attempt_id),
    later_rows rows d.0 (own_row q rows d.1),
  )
    where
      later_rows :
          (l : List AttemptRow)
          → All (λ b. str_eq a.attempt_id b.attempt_id ≡ false) l
          → All (λ b. any (λ r. q r && interrupts b r) rows ≡ (q b && is_lost live_keys b)) l
          → All (λ b. any (λ r. q r && interrupts b r) (a ∷ rows) ≡ (q b && is_lost live_keys b)) l
      later_rows [] f h = tt
      later_rows (b ∷ l) f h = (
        ground
            (arith, f.0, h.0, eq_iff a.attempt_id b.attempt_id, eq_iff b.attempt_id a.attempt_id),
        later_rows l f.1 h.1,
      )

  task_pass-attempts : (rows : List TaskRow) (p : Pass) → (task_pass rows p).attempts ≡ p.attempts
  unfolding task_pass
  task_pass-attempts [] p = refl
  task_pass-attempts (t ∷ rows) p = task_pass-attempts rows (task_step t p) ∙ ground arith

-- The attempt that a recovery leaves in place of one.
abbrev pub recovered_attempt : List String → String → Journal → AttemptRow → AttemptRow
recovered_attempt live_keys session_id j a =
    if is_open_attempt j session_id a && is_lost live_keys a
    then record a { status = AttemptStatus.interrupted }
    else a

-- An open attempt is active, so that the first test adds nothing.
recovered_row :
    (live_keys : List String) (session_id : String) (j : Journal) (a : AttemptRow)
    → any (λ r. is_open_attempt j session_id r && interrupts live_keys a r) j.attempts
      ≡ (is_open_attempt j session_id a && is_lost live_keys a)
    → after_rows live_keys (keep (is_open_attempt j session_id) j.attempts) a
      ≡ recovered_attempt live_keys session_id j a
recovered_row live_keys session_id j a own =
    let is_open = is_open_attempt j session_id in
    after_rows-eq live_keys (keep is_open j.attempts) a
    ∙ ap (λ b. interrupted_if live_keys b a)
        (ap (λ b. is_active a.status && b)
            (any-keep (interrupts live_keys a) is_open j.attempts ∙ own)
          ∙ absorbed (is_active a.status) _ _)
  where
    absorbed : (b c d : Bool) → b && ((b && c) && d) ≡ (b && c) && d
    absorbed b c d = ground arith

-- A recovery interrupts exactly the assigned and running attempts of its session whose key is not
-- live in the checkpoint, and changes no other attempt: where the attempts have distinct identities.
pub recover_attempts :
    (live_keys : List String) (session_id : String) (j : Journal)
    → IsDistinct j.attempts
    → (recover live_keys session_id j).1.attempts
      ≡ map (recovered_attempt live_keys session_id j) j.attempts
unfolding recover both_passes
recover_attempts live_keys session_id j d =
    let is_open = is_open_attempt j session_id in
    let rows = keep is_open j.attempts in
    task_pass-attempts live_keys _ (attempt_pass live_keys rows (initial_pass j))
    ∙ attempt_pass-attempts live_keys rows (initial_pass j)
    ∙ map-All (after_rows live_keys rows) (recovered_attempt live_keys session_id j) j.attempts
        (all_rows j.attempts (own_row live_keys is_open j.attempts d))
  where
    all_rows :
        (l : List AttemptRow)
        → All
            (λ a.
              any (λ r. is_open_attempt j session_id r && interrupts live_keys a r) j.attempts
              ≡ (is_open_attempt j session_id a && is_lost live_keys a))
            l
        → All
            (λ a.
              after_rows live_keys (keep (is_open_attempt j session_id) j.attempts) a
              ≡ recovered_attempt live_keys session_id j a)
            l
    all_rows [] h = tt
    all_rows (a ∷ l) h = (recovered_row live_keys session_id j a h.0, all_rows l h.1)
