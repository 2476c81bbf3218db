-- ===== src/Sessions/Recovery/Releases.antt =====
-- The reservations that a recovery releases.
use skail.Prelude.{
  String, ◌≡◌, refl, sym, ap, ◌∙◌, inl, inr, Bool, true, false, ◌&&◌, not, List, [], ◌∷◌, map, ◌++◌,
  arith, if◌then◌else◌, keep, any, Bool-cases,
}
use skail.Prelude.Sets.{contains}
use skail.Routing.Budget.Tables.{Reservation, released}
use skail.Sessions.Recovery.Tables.{Journal}
use skail.Sessions.Recovery.Passes.{
  is_ambiguous_call, tasks_of_calls, is_held_for, release_for, ids_of, release_orphans, both_passes,
  recover,
}
use skail.Sessions.Recovery.Attempts.{map-map, map-id}

-- A live reservation of an orphan task without an ambiguous call.
abbrev pub is_released : List String → List String → Reservation → Bool
is_released ambiguous orphans r =
    any (λ id. not (contains ambiguous id) && is_held_for id r) orphans

abbrev pub released_if : Bool → Reservation → Reservation
released_if b r = if b then record r { status = released } else r

module _ (ambiguous : List String) where
  abbrev after_ids : List String → Reservation → Reservation
  after_ids [] r = r
  after_ids (id ∷ ids) r = after_ids ids (if contains ambiguous id then r else release_for id r)

  release_orphans-rows :
      (ids : List String) (rows : List Reservation)
      → (release_orphans ambiguous ids rows).1 ≡ map (after_ids ids) rows
  unfolding release_orphans
  release_orphans-rows [] rows = sym (map-id rows)
  release_orphans-rows (id ∷ ids) rows =
      stepped (release_orphans-rows ids rows) (release_orphans-rows ids (map (release_for id) rows))
        (contains ambiguous id)
    where
      rest : List String × List Reservation
      rest = release_orphans ambiguous ids (map (release_for id) rows)

      stepped :
          (release_orphans ambiguous ids rows).1 ≡ map (after_ids ids) rows
          → rest.1 ≡ map (after_ids ids) (map (release_for id) rows)
          → (b : Bool)
          → (if b
              then release_orphans ambiguous ids rows
              else (ids_of (keep (is_held_for id) rows) ++ rest.0, rest.1)).1
            ≡ map (λ r. after_ids ids (if b then r else release_for id r)) rows
      stepped skipped gone true = skipped
      stepped skipped gone false = gone ∙ map-map (after_ids ids) (release_for id) rows

  is_released-dead :
      (ids : List String) (r : Reservation)
      → is_released ambiguous ids (record r { status = released }) ≡ false
  is_released-dead [] r = refl
  is_released-dead (id ∷ ids) r = ground (arith, is_released-dead ids r)

  after_ids-eq :
      (ids : List String) (r : Reservation)
      → after_ids ids r ≡ released_if (is_released ambiguous ids r) r
  after_ids-eq [] r = refl
  after_ids-eq (id ∷ ids) r = elim (Bool-cases (contains ambiguous id)) [
    | inl doubtful ↦ rw doubtful (after_ids-eq ids r)
    | inr certain ↦ elim (Bool-cases (is_held_for id r)) [
      | inr other ↦ rw (certain, other) (after_ids-eq ids r)
      | inl held ↦
          rw (certain, held)
            (after_ids-eq ids (record r { status = released })
              ∙ ap (λ b. released_if b (record r { status = released })) (is_released-dead ids r))
    ]
  ]

map-eq : {A B : Type 0} (f g : A → B) → ((x : A) → f x ≡ g x) → (xs : List A) → map f xs ≡ map g xs
map-eq f g h [] = refl
map-eq f g h (x ∷ xs) = ground (arith, h x, map-eq f g h xs)

-- A recovery releases exactly the live reservations of the orphan tasks that have no started or
-- ambiguous provider call, and changes no other reservation: the order in which the set of orphans
-- is gone through does not matter.
pub recover_reservations :
    (live_keys : List String) (session_id : String) (j : Journal)
    → let calls = keep (is_ambiguous_call j session_id) j.provider_calls in
      let orphans = (both_passes live_keys session_id j).orphan_task_ids in
      (recover live_keys session_id j).1.reservations
      ≡ map (λ r. released_if (is_released (tasks_of_calls j calls) orphans r) r) j.reservations
unfolding recover
recover_reservations live_keys session_id j =
    let ambiguous = tasks_of_calls j (keep (is_ambiguous_call j session_id) j.provider_calls) in
    let orphans = (both_passes live_keys session_id j).orphan_task_ids in
    release_orphans-rows ambiguous orphans j.reservations
    ∙ map-eq (after_ids ambiguous orphans) _ (after_ids-eq ambiguous orphans) j.reservations
