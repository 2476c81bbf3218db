-- ===== src/Routing/Budget/Rows.antt =====
-- What an insert and an update do to the sums over the tables.
use skail.Prelude.{
  ℕ, ◌+◌, String, ◌≡◌, refl, Bool, true, false, Option, none, some, List, [], ◌∷◌, ◌++◌, str_eq,
  eq_iff, if◌then◌else◌, arith, sum_where, any, All, subst, Bool-cases, inl, inr,
}
use skail.Routing.Budget.Tables.{
  ReservationStatus, reserved, Reservation, UsageRecord, Tables, reserved_usd, actual_usd,
  estimated_usd, status_eq, UsageAuthority,
}
use skail.Routing.Budget.Operations.{find_reservation, set_status, find_usage, set_usage, is_id}

pub sum_where-append {ℓ} :
    {A : Type ℓ} (f : A → ℕ) (p : A → Bool) (xs ys : List A)
    → sum_where f p (xs ++ ys) ≡ sum_where f p xs + sum_where f p ys
sum_where-append f p [] ys = omega arith
sum_where-append f p (x ∷ xs) ys = omega (arith, sum_where-append f p xs ys)

-- All that a run has spent, whatever its authority.
abbrev pub spent_usd : String → List UsageRecord → ℕ
spent_usd run_id = sum_where (λ u. u.amount_usd) (λ u. str_eq u.run_id run_id)

pub spent-split :
    (run_id : String) (rows : List UsageRecord)
    → actual_usd run_id rows + estimated_usd run_id rows ≡ spent_usd run_id rows
unfolding actual_usd estimated_usd
spent-split run_id [] = refl
spent-split run_id (u ∷ rows) = ground (arith, spent-split run_id rows)

-- What the ledger counts against the limit of a run.
abbrev pub committed : String → Tables → ℕ
committed run_id db = spent_usd run_id db.usage_records + reserved_usd run_id db.reservations

-- No row has this identity; and no two rows share one.
abbrev pub IsFresh : String → List Reservation → Type 0
IsFresh id = All (λ r. str_eq r.reservation_id id ≡ false)

abbrev pub IsDistinct : List Reservation → Type 0
IsDistinct [] = Unit
IsDistinct (r ∷ rows) = IsFresh r.reservation_id rows × IsDistinct rows

pub any-false-IsFresh :
    (id : String) (rows : List Reservation)
    → any (λ (r : Reservation). str_eq r.reservation_id id) rows ≡ false
    → IsFresh id rows
any-false-IsFresh id [] h = tt
any-false-IsFresh id (r ∷ rows) h = (ground arith, any-false-IsFresh id rows (ground arith))

pub IsDistinct-snoc :
    (rows : List Reservation) (r : Reservation)
    → IsDistinct rows
    → IsFresh r.reservation_id rows
    → IsDistinct (rows ++ r ∷ [])
IsDistinct-snoc [] r d f = (tt, tt)
IsDistinct-snoc (x ∷ rows) r d f = (
  IsFresh-snoc rows d.0 (
      ground (
        arith,
        eq_iff x.reservation_id r.reservation_id,
        eq_iff r.reservation_id x.reservation_id,
        f.0,
      )),
  IsDistinct-snoc rows r d.1 f.1,
)
  where
    IsFresh-snoc :
        (l : List Reservation)
        → IsFresh x.reservation_id l
        → str_eq r.reservation_id x.reservation_id ≡ false
        → IsFresh x.reservation_id (l ++ r ∷ [])
    IsFresh-snoc [] g e = (e, tt)
    IsFresh-snoc (y ∷ l) g e = (g.0, IsFresh-snoc l g.1 e)

IsFresh-set_status :
    (id j : String) (s : ReservationStatus) (rows : List Reservation)
    → IsFresh j rows
    → IsFresh j (set_status id s rows)
unfolding set_status
IsFresh-set_status id j s [] f = tt
IsFresh-set_status id j s (r ∷ rows) f = (ground arith, IsFresh-set_status id j s rows f.1)

pub IsDistinct-set_status :
    (id : String) (s : ReservationStatus) (rows : List Reservation)
    → IsDistinct rows
    → IsDistinct (set_status id s rows)
unfolding set_status
IsDistinct-set_status id s [] d = tt
IsDistinct-set_status id s (r ∷ rows) d = (
  rw (same_id r) (IsFresh-set_status id r.reservation_id s rows d.0),
  IsDistinct-set_status id s rows d.1,
)
  where
    same_id :
        (x : Reservation)
        → (if str_eq x.reservation_id id then record x { status = s } else x).reservation_id
          ≡ x.reservation_id
    same_id x = ground arith

reserved-set_status_fresh :
    (run_id id : String) (s : ReservationStatus) (rows : List Reservation)
    → IsFresh id rows
    → reserved_usd run_id (set_status id s rows) ≡ reserved_usd run_id rows
unfolding reserved_usd set_status
reserved-set_status_fresh run_id id s [] f = refl
reserved-set_status_fresh run_id id s (r ∷ rows) f =
    ground (arith, reserved-set_status_fresh run_id id s rows, f.0)

-- A row that leaves the status "reserved" gives its amount back to its run.
pub reserved-set_status :
    (run_id id : String) (s : ReservationStatus) (rows : List Reservation) (r : Reservation)
    → IsDistinct rows
    → find_reservation id rows ≡ some r
    → r.status ≡ reserved
    → status_eq s reserved ≡ false
    → reserved_usd run_id (set_status id s rows)
        + (if str_eq r.run_id run_id then r.amount_usd else 0)
      ≡ reserved_usd run_id rows
unfolding reserved_usd set_status find_reservation
reserved-set_status run_id id s [] r d h live gone = cc
reserved-set_status run_id id s (x ∷ rows) r d h live gone = ground (
  arith,
  reserved-set_status run_id id s rows r d.1,
  reserved-set_status_fresh run_id id s rows,
  eq_iff x.reservation_id id,
)

-- No usage is on file for this reservation; and none has two.
abbrev HasNoUsage : Option String → List UsageRecord → Type 0
HasNoUsage none rows = Unit
HasNoUsage (some id) rows = All (λ u. is_id id u.reservation_id ≡ false) rows

abbrev pub IsUnique : List UsageRecord → Type 0
IsUnique [] = Unit
IsUnique (u ∷ rows) = HasNoUsage u.reservation_id rows × IsUnique rows

pub find_usage-none :
    (id : String) (rows : List UsageRecord)
    → find_usage id rows ≡ none
    → All (λ u. is_id id u.reservation_id ≡ false) rows
unfolding find_usage
find_usage-none id [] h = tt
find_usage-none id (u ∷ rows) h = (ground arith, find_usage-none id rows (ground arith))

HasNoUsage-snoc :
    (o : Option String) (u : UsageRecord) (id : String) (rows : List UsageRecord)
    → HasNoUsage o rows
    → is_id id o ≡ false
    → u.reservation_id ≡ some id
    → HasNoUsage o (rows ++ u ∷ [])
HasNoUsage-snoc none u id rows h e f = tt
HasNoUsage-snoc (some j) u id [] h e f = (ground (arith, eq_iff id j, eq_iff j id), tt)
HasNoUsage-snoc (some j) u id (v ∷ rows) h e f = (h.0, HasNoUsage-snoc (some j) u id rows h.1 e f)

pub IsUnique-snoc :
    (u : UsageRecord) (id : String) (rows : List UsageRecord)
    → IsUnique rows
    → All (λ v. is_id id v.reservation_id ≡ false) rows
    → u.reservation_id ≡ some id
    → IsUnique (rows ++ u ∷ [])
IsUnique-snoc u id [] d f e = rw e (tt, tt)
IsUnique-snoc u id (v ∷ rows) d f e =
    (HasNoUsage-snoc v.reservation_id u id rows d.0 f.0 e, IsUnique-snoc u id rows d.1 f.1 e)

module _ (id : String) (amount : ℕ) (auth : Bool) (authority : UsageAuthority) where
  HasNoUsage-set_usage :
      (o : Option String) (rows : List UsageRecord)
      → HasNoUsage o rows
      → HasNoUsage o (set_usage id amount auth authority rows)
  unfolding set_usage
  HasNoUsage-set_usage none rows h = tt
  HasNoUsage-set_usage (some j) [] h = tt
  HasNoUsage-set_usage (some j) (u ∷ rows) h =
      (ground arith, HasNoUsage-set_usage (some j) rows h.1)

  same_reservation :
      (u : UsageRecord)
      → (if is_id id u.reservation_id
          then record u { amount_usd = amount; authoritative = auth; authority = authority }
          else u).reservation_id
        ≡ u.reservation_id
  same_reservation u = ground arith

  pub IsUnique-set_usage :
      (rows : List UsageRecord) → IsUnique rows → IsUnique (set_usage id amount auth authority rows)
  unfolding set_usage
  IsUnique-set_usage [] d = tt
  IsUnique-set_usage (u ∷ rows) d = (
    rw (same_reservation u) (HasNoUsage-set_usage u.reservation_id rows d.0),
    IsUnique-set_usage rows d.1,
  )

  spent-set_usage_fresh :
      (run_id : String) (rows : List UsageRecord)
      → All (λ u. is_id id u.reservation_id ≡ false) rows
      → spent_usd run_id (set_usage id amount auth authority rows) ≡ spent_usd run_id rows
  unfolding set_usage
  spent-set_usage_fresh run_id [] f = refl
  spent-set_usage_fresh run_id (u ∷ rows) f = ground (arith, spent-set_usage_fresh run_id rows, f.0)

  fresh_of_owner :
      (o : Option String) (rows : List UsageRecord)
      → is_id id o ≡ true
      → HasNoUsage o rows
      → All (λ u. is_id id u.reservation_id ≡ false) rows
  fresh_of_owner none rows e h = cc
  fresh_of_owner (some j) rows e h = subst (λ k. HasNoUsage (some k) rows) ((eq_iff j id).0 e) h

  -- The new amount takes the place of the old one in the run of the record.
  pub spent-set_usage :
      (run_id : String) (rows : List UsageRecord) (u : UsageRecord)
      → IsUnique rows
      → find_usage id rows ≡ some u
      → spent_usd run_id (set_usage id amount auth authority rows)
          + (if str_eq u.run_id run_id then u.amount_usd else 0)
        ≡ spent_usd run_id rows + (if str_eq u.run_id run_id then amount else 0)
  unfolding set_usage find_usage
  spent-set_usage run_id [] u d h = cc
  spent-set_usage run_id (v ∷ rows) u d h = elim (Bool-cases (is_id id v.reservation_id)) [
    | inl here ↦
        ground
          (arith, spent-set_usage_fresh run_id rows (fresh_of_owner v.reservation_id rows here d.0))
    | inr later ↦ ground (arith, spent-set_usage run_id rows u d.1)
  ]
