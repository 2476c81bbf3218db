-- ===== src/Routing/Budget/Limits.antt =====
-- No run is charged more than its limit.
use skail.Prelude.{
  ℕ, ◌+◌, ◌≤◌, String, ◌≡◌, refl, Option, none, some, List, [], ◌∷◌, ◌++◌, arith, str_eq, eq_iff,
  if◌then◌else◌, subst, sym,
}
use skail.Prelude.Dict.{get}
use skail.Routing.Budget.Tables.{
  Tables, ReservationRequest, Reservation, UsageRecord, released, settled, reserved_usd, holds_for,
}
use skail.Routing.Budget.Operations.{find_reservation, find_usage, reserved_row}
use skail.Routing.Budget.Settle.{Settlement, usage_row}
use skail.Routing.Budget.Rows.{
  committed, spent_usd, sum_where-append, IsDistinct, IsDistinct-snoc, IsDistinct-set_status,
  reserved-set_status, IsUnique, IsUnique-snoc, IsUnique-set_usage, spent-set_usage,
  find_usage-none,
}
use skail.Routing.Budget.Accounts.{Writes, Frees}
use skail.Routing.Budget.Settlements.{Settles, Rewrites}

-- The limits hold, and the keys of the tables are keys.
pub record IsWithin (db : Tables) : Type 0 where
  pub limited :
      (run_id : String) (l : ℕ) → get db.runs run_id ≡ some (some l) → committed run_id db ≤ l
  pub distinct : IsDistinct db.reservations
  pub unique : IsUnique db.usage_records

abbrev pub Covers : ℕ → ℕ → Option UsageRecord → Type 0
Covers cost held none = cost ≤ held
Covers cost held (some u) = cost ≤ u.amount_usd

-- The settled cost is at most what is on file: the earlier usage, or else the reservation.
abbrev pub IsCovered : Settlement → Tables → Type 0
IsCovered q db =
    (r : Reservation) (cost : ℕ)
    → find_reservation q.reservation_id db.reservations ≡ some r
    → q.usage.cost_usd ≡ some cost
    → Covers cost r.amount_usd (find_usage q.reservation_id db.usage_records)

reserved-append :
    (run_id : String) (q : ReservationRequest) (rows : List Reservation)
    → reserved_usd run_id (rows ++ reserved_row q ∷ [])
      ≡ reserved_usd run_id rows + (if str_eq q.run_id run_id then q.amount_usd else 0)
unfolding reserved_usd
reserved-append run_id q rows = ground (
  arith,
  sum_where-append (λ (r : Reservation). r.amount_usd) (holds_for run_id) rows
      (reserved_row q ∷ []),
)

spent-append :
    (run_id : String) (u : UsageRecord) (rows : List UsageRecord)
    → spent_usd run_id (rows ++ u ∷ [])
      ≡ spent_usd run_id rows + (if str_eq u.run_id run_id then u.amount_usd else 0)
spent-append run_id u rows = ground (
  arith,
  sum_where-append (λ (v : UsageRecord). v.amount_usd) (λ v. str_eq v.run_id run_id) rows (u ∷ []),
)

-- What one amount weighs in the account of a run.
abbrev pub share : String → String → ℕ → ℕ
share owner run_id amount = if str_eq owner run_id then amount else 0

committed_of :
    (run_id : String) (db : Tables) (usage : List UsageRecord) (rows : List Reservation)
    → db.usage_records ≡ usage
    → db.reservations ≡ rows
    → committed run_id db ≡ spent_usd run_id usage + reserved_usd run_id rows
committed_of run_id db usage rows e f = rw (e, f)

pub committed-Writes :
    (run_id : String) (q : ReservationRequest) (tl : Option ℕ) (allowance : ℕ) (db db' : Tables)
    → Writes q tl allowance db db'
    → committed run_id db' ≡ committed run_id db + share q.run_id run_id q.amount_usd
committed-Writes run_id q tl allowance db db' w = omega (
  arith,
  committed_of run_id db' _ _ w.same_usage w.appended,
  reserved-append run_id q db.reservations,
)

pub committed-Frees :
    (run_id id : String) (db db' : Tables) (f : Frees id db db')
    → IsWithin db
    → committed run_id db' + share f.row.run_id run_id f.row.amount_usd ≡ committed run_id db
committed-Frees run_id id db db' f v = omega (
  arith,
  committed_of run_id db' _ _ f.same_usage f.updated,
  reserved-set_status run_id id released db.reservations f.row v.distinct f.found f.live refl,
)

pub committed-Settles :
    (run_id : String) (q : Settlement) (db db' : Tables) (s : Settles q db db')
    → IsDistinct db.reservations
    → committed run_id db' + share s.row.run_id run_id s.row.amount_usd
      ≡ committed run_id db + share s.row.run_id run_id s.cost
committed-Settles run_id q db db' s v = omega (
  arith,
  committed_of run_id db' _ _ s.recorded s.updated,
  spent-append run_id (usage_row q s.cost s.row) db.usage_records,
  reserved-set_status run_id q.reservation_id settled db.reservations s.row v s.found s.live refl,
)

committed-Rewrites :
    (run_id : String) (q : Settlement) (db db' : Tables) (r : Rewrites q db db')
    → IsWithin db
    → committed run_id db' + share r.old.run_id run_id r.old.amount_usd
      ≡ committed run_id db + share r.old.run_id run_id r.cost
committed-Rewrites run_id q db db' r v = omega (
  arith,
  committed_of run_id db' _ _ r.replaced r.same_reservations,
  spent-set_usage q.reservation_id r.cost r.authoritative q.usage.authority run_id db.usage_records
      r.old v.unique r.found,
)

pub Writes-IsWithin :
    (q : ReservationRequest) (tl : Option ℕ) (allowance : ℕ) (db db' : Tables)
    → IsWithin db
    → Writes q tl allowance db db'
    → IsWithin db'
Writes-IsWithin q tl allowance db db' v w = record {
  limited = λ run_id l g. ground (
    arith,
    eq_iff q.run_id run_id,
    committed-Writes run_id q tl allowance db db' w,
    w.fits l,
    v.limited run_id l,
    subst (λ runs. get runs run_id ≡ some (some l)) w.same_runs g,
  );
  distinct =
      subst IsDistinct (sym w.appended)
        (IsDistinct-snoc db.reservations (reserved_row q) v.distinct w.fresh);
  unique = subst IsUnique (sym w.same_usage) v.unique;
}

pub Frees-IsWithin : (id : String) (db db' : Tables) → IsWithin db → Frees id db db' → IsWithin db'
Frees-IsWithin id db db' v f = record {
  limited = λ run_id l g. omega (
    arith,
    committed-Frees run_id id db db' f v,
    v.limited run_id l (subst (λ runs. get runs run_id ≡ some (some l)) f.same_runs g),
  );
  distinct =
      subst IsDistinct (sym f.updated)
        (IsDistinct-set_status id released db.reservations v.distinct);
  unique = subst IsUnique (sym f.same_usage) v.unique;
}

pub Settles-IsWithin :
    (q : Settlement) (db db' : Tables)
    → IsWithin db
    → IsCovered q db
    → Settles q db db'
    → IsWithin db'
Settles-IsWithin q db db' v c s = record {
  limited = λ run_id l g. ground (
    arith,
    committed-Settles run_id q db db' s v.distinct,
    covered,
    v.limited run_id l (subst (λ runs. get runs run_id ≡ some (some l)) s.same_runs g),
  );
  distinct =
      subst IsDistinct (sym s.updated)
        (IsDistinct-set_status q.reservation_id settled db.reservations v.distinct);
  unique = subst IsUnique (sym s.recorded) (
      IsUnique-snoc (usage_row q s.cost s.row) q.reservation_id db.usage_records v.unique
        (find_usage-none q.reservation_id db.usage_records s.unused) refl);
}
  where
    covered : s.cost ≤ s.row.amount_usd
    covered = subst (Covers s.cost s.row.amount_usd) s.unused (c s.row s.cost s.found s.paid)

pub Rewrites-IsWithin :
    (q : Settlement) (db db' : Tables)
    → IsWithin db
    → IsCovered q db
    → Rewrites q db db'
    → IsWithin db'
Rewrites-IsWithin q db db' v c r = record {
  limited = λ run_id l g. ground (
    arith,
    committed-Rewrites run_id q db db' r v,
    covered,
    v.limited run_id l (subst (λ runs. get runs run_id ≡ some (some l)) r.same_runs g),
  );
  distinct = subst IsDistinct (sym r.same_reservations) v.distinct;
  unique = subst IsUnique (sym r.replaced) (
      IsUnique-set_usage q.reservation_id r.cost r.authoritative q.usage.authority db.usage_records
        v.unique);
}
  where
    covered : r.cost ≤ r.old.amount_usd
    covered = subst (Covers r.cost r.row.amount_usd) r.found (c r.row r.cost r.held r.paid)
