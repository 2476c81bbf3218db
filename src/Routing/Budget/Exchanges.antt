-- ===== src/Routing/Budget/Exchanges.antt =====
-- What leaves the account of a run when a reservation ends, and what takes its place.
use skail.Prelude.{ℕ, ◌+◌, String, ◌≡◌, none, some, List, [], ◌∷◌, arith, ok, ◌>>=◌, ap, ◌∙◌, sym}
use skail.Routing.Budget.Tables.{
  Tables, Reservation, ReservationStatus, reserved, released, settled,
}
use skail.Routing.Budget.Operations.{
  Percent, update_warning, release, find_reservation, find_usage, set_status,
}
use skail.Routing.Budget.Settle.{Settlement, settle, settle_cost}
use skail.Routing.Budget.Rows.{committed}
use skail.Routing.Budget.Accounts.{Frees, warned_keeps}
use skail.Routing.Budget.Settlements.{Settles, Settles-of, settle_found}
use skail.Routing.Budget.Rows.{IsDistinct}
use skail.Routing.Budget.Limits.{IsWithin, share, committed-Frees, committed-Settles}

find-set_status :
    (id : String) (s : ReservationStatus) (rows : List Reservation) (r : Reservation)
    → find_reservation id rows ≡ some r
    → find_reservation id (set_status id s rows) ≡ some (record r { status = s })
unfolding find_reservation set_status
find-set_status id s [] r h = cc
find-set_status id s (x ∷ rows) r h = ground (arith, find-set_status id s rows r)

release-eq :
    (p : Percent) (id : String) (db : Tables) (r : Reservation)
    → find_reservation id db.reservations ≡ some r
    → r.status ≡ reserved
    → release p id db ≡ (
        update_warning p
          (record db { reservations = set_status id released db.reservations })
          r.run_id
        >>= λ w. ok w.0)
unfolding release
release-eq p id db r found live = ground arith

-- Releasing a live reservation gives exactly its amount back to its run, leaves the account of
-- every other run, and leaves the reservation on file as released.
release_returns :
    (p : Percent) (id : String) (db db' : Tables) (r : Reservation)
    → IsWithin db
    → find_reservation id db.reservations ≡ some r
    → r.status ≡ reserved
    → release p id db ≡ ok db'
    → ((run_id : String)
        → committed run_id db' + share r.run_id run_id r.amount_usd ≡ committed run_id db)
      × (find_reservation id db'.reservations ≡ some (record r { status = released }))
release_returns p id db db' r v found live h =
    let (runs, rows, usage) =
      warned_keeps p _ db' r.run_id (sym (release-eq p id db r found live) ∙ h) in
    let f : Frees id db db' = record {
      row = r;
      found = found;
      live = live;
      same_runs = runs;
      same_usage = usage;
      updated = rows;
    } in
    (
      λ run_id. committed-Frees run_id id db db' f v,
      ap (find_reservation id) rows ∙ find-set_status id released db.reservations r found,
    )

settled_row :
    (q : Settlement) (db db' : Tables) (r : Reservation) (cost : ℕ)
    → find_reservation q.reservation_id db.reservations ≡ some r
    → q.usage.cost_usd ≡ some cost
    → Settles q db db'
    → IsDistinct db.reservations
    → ((run_id : String)
        → committed run_id db' + share r.run_id run_id r.amount_usd
          ≡ committed run_id db + share r.run_id run_id cost)
      × (find_reservation q.reservation_id db'.reservations ≡ some (record r { status = settled }))
settled_row q db db' r cost found paid s v =
    let same_row : s.row ≡ r = cc (found, s.found) in
    let same_cost : s.cost ≡ cost = cc (paid, s.paid) in
    (
      λ run_id. rw (← same_row, ← same_cost) (committed-Settles run_id q db db' s v),
      ap (find_reservation q.reservation_id) s.updated
          ∙ find-set_status q.reservation_id settled db.reservations r found,
    )

-- The first settlement of a live reservation puts the settled cost in the place of the reserved
-- amount in the account of its run, leaves the account of every other run, and leaves the
-- reservation on file as settled: where the reservations have distinct identities, whether or not the
-- limits hold.
pub settle_exchanges :
    (p : Percent) (q : Settlement) (db db' : Tables) (r : Reservation) (cost : ℕ)
    → IsDistinct db.reservations
    → find_reservation q.reservation_id db.reservations ≡ some r
    → find_usage q.reservation_id db.usage_records ≡ none
    → q.usage.cost_usd ≡ some cost
    → settle p q db ≡ ok db'
    → ((run_id : String)
        → committed run_id db' + share r.run_id run_id r.amount_usd
          ≡ committed run_id db + share r.run_id run_id cost)
      × (find_reservation q.reservation_id db'.reservations ≡ some (record r { status = settled }))
settle_exchanges p q db db' r cost v found unused paid h =
    let s : Settles q db db' = Settles-of p q db db' r cost found unused paid (
      ap (λ u. settle_cost p q r u db cost) (sym unused)
      ∙ sym (settle_found p q db db' r cost found paid)
      ∙ h) in
    settled_row q db db' r cost found paid s v
