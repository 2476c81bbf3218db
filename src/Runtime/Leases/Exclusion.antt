-- ===== src/Runtime/Leases/Exclusion.antt =====
-- Histories of lease calls, with the acquisitions that are outstanding.
use skail.Prelude.{
  suc, String, ◌≡◌, refl, Bool, true, false, some, List, [], ◌∷◌, arith, length, all, str_eq,
  eq_iff, eq_refl, ◌↔◌, if◌then◌else◌,
}
use skail.Prelude.Int.{pos, ◌+ℤ◌, ◌-ℤ◌}
use skail.Runtime.Leases.{
  Lease, fresh, is_open_to, is_held_by, try_acquire, acquired, release, recover_stale, abandon,
}

-- What a caller sees: the owners of the acquisitions that were not given back, the last one first.
abbrev pub give_back : List String → String → List String
give_back [] owner = []
give_back (x ∷ out) owner = if str_eq x owner then out else x ∷ out

abbrev reclaim : List String → String → List String
reclaim [] owner = []
reclaim (x ∷ out) owner = if str_eq x owner then [] else x ∷ out

pub data History : Lease → List String → Type 0 where
  start : History fresh []
  acquires :
      {l l' : Lease} {out : List String} (owner : String) (cancelled : Bool)
      → History l out
      → try_acquire l owner cancelled ≡ acquired l'
      → History l' (owner ∷ out)
  releases :
      {l : Lease} {out : List String} (owner : String)
      → History l out
      → History (release l owner) (give_back out owner)
  recovers :
      {l : Lease} {out : List String} (owner : String)
      → History l out
      → History (recover_stale l owner).0 (reclaim out owner)

-- The lease counts the outstanding acquisitions, which are all its holder's.
abbrev pub IsExclusive : Lease → List String → Type 0
IsExclusive l [] = l ≡ fresh
IsExclusive l (x ∷ out) =
    (l.holder ≡ some x) × (l.depth ≡ pos (suc (length out))) × (all (str_eq x) out ≡ true)

acquire-IsExclusive :
    (l l' : Lease) (out : List String) (owner : String) (cancelled : Bool)
    → IsExclusive l out
    → try_acquire l owner cancelled ≡ acquired l'
    → IsExclusive l' (owner ∷ out)
unfolding try_acquire is_open_to fresh ◌+ℤ◌
acquire-IsExclusive l l' [] owner cancelled v h = ground (arith, v)
acquire-IsExclusive l l' (x ∷ out) owner cancelled v h =
    ground (arith, v.0, v.1, v.2, eq_iff x owner)

release-IsExclusive :
    (l : Lease) (out : List String) (owner : String)
    → IsExclusive l out
    → IsExclusive (release l owner) (give_back out owner)
unfolding release is_held_by fresh ◌-ℤ◌
release-IsExclusive l [] owner v = ground (arith, v)
release-IsExclusive l (x ∷ []) owner v = ground (arith, v.0, v.1, v.2, eq_iff x owner)
release-IsExclusive l (x ∷ y ∷ out) owner v =
    ground (arith, v.0, v.1, v.2, eq_iff x owner, eq_iff x y)

recover_stale-IsExclusive :
    (l : Lease) (out : List String) (owner : String)
    → IsExclusive l out
    → IsExclusive (recover_stale l owner).0 (reclaim out owner)
unfolding recover_stale is_held_by fresh
recover_stale-IsExclusive l [] owner v = ground (arith, v)
recover_stale-IsExclusive l (x ∷ out) owner v = ground (arith, v.0, v.1, v.2, eq_iff x owner)

-- In any order of acquisitions, releases and recoveries by any owners, the acquisitions that were
-- not given back belong to one owner, the holder, and the depth is their number; the lease is free
-- when there is none.
pub History-IsExclusive : {l : Lease} {out : List String} → History l out → IsExclusive l out
History-IsExclusive start = refl
History-IsExclusive (acquires owner c r h) =
    acquire-IsExclusive _ _ _ owner c (History-IsExclusive r) h
History-IsExclusive (releases owner r) = release-IsExclusive _ _ owner (History-IsExclusive r)
History-IsExclusive (recovers owner r) = recover_stale-IsExclusive _ _ owner (History-IsExclusive r)

granted_iff :
    (l : Lease) (out : List String) (owner : String)
    → IsExclusive l out
    → ((l' : Lease) × (try_acquire l owner false ≡ acquired l'))
      ↔ (all (λ x. str_eq x owner) out ≡ true)
unfolding try_acquire is_open_to fresh
granted_iff l [] owner v = rw v ((λ g. refl), (λ h. (_, refl)))
granted_iff l (x ∷ out) owner v = (
  λ g. ground (arith, v.0, v.2, g.1, eq_iff x owner, same x owner out),
  λ h. (
    record { holder = some owner; depth = l.depth +ℤ pos 1 },
    ground (arith, v.0, h, eq_iff x owner),
  ),
)
  where
    same :
        (x y : String) (out : List String)
        → x ≡ y
        → all (str_eq x) out ≡ true
        → all (λ z. str_eq z y) out ≡ true
    same x y [] e h = refl
    same x y (z ∷ out) e h = ground (arith, same x y out e, eq_iff x z, eq_iff z y)

abandon_restores :
    (l : Lease) (out : List String) (owner : String) (cancelled : Bool)
    → IsExclusive l out
    → abandon l owner (try_acquire l owner cancelled) ≡ l
unfolding abandon try_acquire release is_open_to is_held_by fresh ◌+ℤ◌ ◌-ℤ◌
abandon_restores l [] owner cancelled v = ground (arith, v, eq_refl owner)
abandon_restores l (x ∷ out) owner cancelled v =
    ground (arith, v.0, v.1, eq_iff x owner, eq_refl owner)

-- After any such calls, an acquisition that is not cancelled is granted exactly when no other owner
-- has one outstanding; a granted one that is given back at once, or whose task was cancelled while
-- its thread took the lease, leaves the lease as it was.
acquire_granted_iff :
    {l : Lease} {out : List String} (owner : String)
    → History l out
    → (((l' : Lease) × (try_acquire l owner false ≡ acquired l'))
        ↔ (all (λ x. str_eq x owner) out ≡ true))
      × ((cancelled : Bool) → abandon l owner (try_acquire l owner cancelled) ≡ l)
acquire_granted_iff owner r =
    let v = History-IsExclusive r in (granted_iff _ _ owner v, λ c. abandon_restores _ _ owner c v)
