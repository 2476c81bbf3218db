-- ===== src/Tui/Projection/Slots.antt =====
-- What holds of the slots of children after any calls of `child_slot_for`, `note_child` and
-- `mark_child_status`.
use skail.Prelude.{
  ℕ, ◌+◌, String, true, false, Option, none, some, List, [], ◌∷◌, ◌≡◌, refl, ◌≤◌, ◌<◌, arith,
  eq_iff, length,
}
use skail.Prelude.Dict.{Dict, get, put, values, get-put}
use skail.Tui.Projection.State.{ChildView, Projection, projection}
use skail.Tui.Projection.Children.{
  is_used, free_slot, held_slot, with_slot, marked, noted, child_slot_for, note_child,
  mark_child_status,
}

pub data ChildCall : Type 0 where
  asks : String → ChildCall
  notes : String → String → String → String → ChildCall
  marks : String → String → Option String → ChildCall

unfoldable pub child_call : ChildCall → Projection → Projection
child_call (asks child_id) p = (child_slot_for child_id p).1
child_call (notes child_id task model lock) p = (note_child child_id task model lock p).1
child_call (marks child_id status last_event) p = mark_child_status child_id status last_event p

unfoldable pub child_calls : List ChildCall → Projection → Projection
child_calls [] p = p
child_calls (c ∷ calls) p = child_calls calls (child_call c p)

-- At most three children have a slot, which is one of 1, 2 and 3 and not the slot of another.
abbrev pub IsSlotted : Dict ℕ → Type 0
IsSlotted slots =
    length slots ≤ 3
    × ((a : String) (s : ℕ) → get slots a ≡ some s → 1 ≤ s × s ≤ 3)
    × ((a b : String) (s : ℕ) → get slots a ≡ some s → get slots b ≡ some s → a ≡ b)

get-is_used :
    (slots : Dict ℕ) (a : String) (s : ℕ) → get slots a ≡ some s → is_used s (values slots) ≡ true
unfolding get values is_used
get-is_used [] a s h = ground (arith, h)
get-is_used ((k, t) ∷ slots) a s h = ground (arith, get-is_used slots a s, h)

length-put : (slots : Dict ℕ) (a : String) (s : ℕ) → length (put slots a s) ≤ length slots + 1
unfolding put
length-put [] a s = omega arith
length-put ((k, t) ∷ slots) a s = ground (arith, length-put slots a s)

free_slot-free :
    (used : List ℕ) (taken s : ℕ)
    → free_slot used (1 ∷ 2 ∷ 3 ∷ []) taken ≡ some s
    → (is_used s used ≡ false) × ((1 ≤ s × s ≤ 3) × taken < 3)
unfolding free_slot
free_slot-free used taken s h = ground (arith, h)

-- a new slot under a key that has none
put-IsSlotted :
    (slots : Dict ℕ) (a : String) (s : ℕ)
    → IsSlotted slots
    → free_slot (values slots) (1 ∷ 2 ∷ 3 ∷ []) (length slots) ≡ some s
    → IsSlotted (put slots a s)
put-IsSlotted slots a s (bound, range, apart) h =
    let free = free_slot-free (values slots) (length slots) s h in
    (
      omega (arith, bound, length-put slots a s, free.1.1),
      (λ b t e. ground (arith, range b t, free.1.0, get-put s a b slots, e)),
      (λ b c t e f. ground (
        arith,
        eq_iff a b,
        eq_iff a c,
        get-put s a b slots,
        get-put s a c slots,
        get-is_used slots b t,
        get-is_used slots c t,
        free.0,
        apart b c t,
        e,
        f,
      )),
    )

-- What a call may do to the slots: they stay slotted, and a slot that is held stays.
abbrev Keeps : Dict ℕ → Dict ℕ → Type 0
Keeps slots slots' =
    (IsSlotted slots → IsSlotted slots')
    × ((a : String) (s : ℕ) → get slots a ≡ some s → get slots' a ≡ some s)

abbrev kept : (slots : Dict ℕ) → Keeps slots slots
kept slots = ((λ h. h), (λ a s h. h))

held_slot-Keeps :
    (child_id : String) (p : Projection) (held : Option ℕ)
    → get p.child_slots child_id ≡ held
    → Keeps p.child_slots (held_slot child_id p held).1.child_slots
held_slot-Keeps child_id p (some slot) h = kept p.child_slots
held_slot-Keeps child_id p none h = go _ refl
  where
    go :
        (found : Option ℕ)
        → free_slot (values p.child_slots) (1 ∷ 2 ∷ 3 ∷ []) (length p.child_slots) ≡ found
        → Keeps p.child_slots (with_slot child_id p found).1.child_slots
    go none e = kept p.child_slots
    go (some slot) e = (
      (λ slotted. put-IsSlotted p.child_slots child_id slot slotted e),
      (λ a s f. ground (arith, get-put slot child_id a p.child_slots, eq_iff child_id a, h, f)),
    )

child_slot_for-Keeps :
    (child_id : String) (p : Projection)
    → Keeps p.child_slots (child_slot_for child_id p).1.child_slots
unfolding child_slot_for
child_slot_for-Keeps child_id p = held_slot-Keeps child_id p _ refl

marked-Keeps :
    (child_id status : String) (last_event : Option String) (p : Projection) (c : Option ChildView)
    → Keeps p.child_slots (marked child_id status last_event p c).child_slots
marked-Keeps child_id status last_event p (some c) = kept p.child_slots
marked-Keeps child_id status last_event p none = child_slot_for-Keeps child_id p

noted-slots :
    (child_id task model lock : String) (slot : ℕ) (p : Projection) (c : Option ChildView)
    → (noted child_id task model lock slot p c).1.child_slots ≡ p.child_slots
noted-slots child_id task model lock slot p (some c) = refl
noted-slots child_id task model lock slot p none = refl

child_call-Keeps :
    (c : ChildCall) (p : Projection) → Keeps p.child_slots (child_call c p).child_slots
unfolding child_call note_child mark_child_status
child_call-Keeps (asks child_id) p = child_slot_for-Keeps child_id p
child_call-Keeps (notes child_id task model lock) p =
    rw (noted-slots child_id task model lock _ (child_slot_for child_id p).1 _)
      (child_slot_for-Keeps child_id p)
child_call-Keeps (marks child_id status last_event) p =
    marked-Keeps child_id status last_event p (get p.children child_id)

child_calls-Keeps :
    (calls : List ChildCall) (p : Projection)
    → Keeps p.child_slots (child_calls calls p).child_slots
unfolding child_calls
child_calls-Keeps [] p = kept p.child_slots
child_calls-Keeps (c ∷ calls) p =
    let one = child_call-Keeps c p in
    let more = child_calls-Keeps calls (child_call c p) in
    ((λ h. more.0 (one.0 h)), (λ a s h. more.1 a s (one.1 a s h)))

child_slot_for-held :
    (child_id : String) (s : ℕ) (p : Projection)
    → get p.child_slots child_id ≡ some s
    → child_slot_for child_id p ≡ (s, p)
unfolding child_slot_for
child_slot_for-held child_id s p h = rw h refl

fresh-IsSlotted : IsSlotted projection.child_slots
unfolding get
fresh-IsSlotted = (omega arith, (λ a s h. ground (arith, h)), (λ a b s h f. ground (arith, h)))

-- Whatever calls about children reach a fresh projection, at most three children have a slot, each
-- slot is one of 1, 2 and 3 and belongs to one child, and a child that has a slot is given the same
-- slot again after any further calls, without a change to the projection.
pub child_slots_stay :
    (calls later : List ChildCall) (child_id : String) (s : ℕ)
    → let p = child_calls calls projection in
      IsSlotted p.child_slots
      × (get p.child_slots child_id ≡ some s
          → child_slot_for child_id (child_calls later p) ≡ (s, child_calls later p))
child_slots_stay calls later child_id s = (
  (child_calls-Keeps calls projection).0 fresh-IsSlotted,
  (λ h.
      child_slot_for-held child_id s _
        ((child_calls-Keeps later (child_calls calls projection)).1 child_id s h)),
)
