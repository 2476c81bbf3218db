-- ===== src/Routing/Budget/Replays.antt =====
-- Idempotency of the ledger, and exactly when it grants a reservation.
use skail.Prelude.{
  ℕ, ◌+◌, ◌≤◌, String, ◌≡◌, ◌↔◌, inl, inr, Bool, true, false, Option, none, some, List, [], ◌∷◌,
  ◌++◌, arith, ok, refl, sym, eq_refl, Option-cases, ap, ◌∙◌,
}
use skail.Prelude.Int.{◌-ℤ◌}
use skail.Prelude.Dict.{get}
use skail.Routing.Budget.Tables.{
  Tables, Reservation, ReservationRequest, ReservationResult, BudgetSnapshot, snapshot, snapshot_of,
  option_eq, task_committed_usd,
}
use skail.Routing.Budget.Operations.{
  Percent, find_key, replays, reserve, reserve_new, reserved_row, result_of, admits_row,
  create_reservation, update_warning, exceeds, task_exceeds, warned,
}
use skail.Routing.Budget.Rows.{committed, spent-split}
use skail.Routing.Budget.Accounts.{Writes, reserve_new-Writes, reserve_new-Trace}

option_eq_refl : (o : Option String) → option_eq o o ≡ true
option_eq_refl none = refl
option_eq_refl (some a) = eq_refl a

replays-reserved_row : (q : ReservationRequest) → replays (reserved_row q) q ≡ true
unfolding replays
replays-reserved_row q = ground (
  arith,
  eq_refl q.reservation_id,
  eq_refl q.run_id,
  option_eq_refl q.task_id,
  eq_refl q.idempotency_key,
  eq_refl q.purpose,
)

find_key-snoc :
    (rows : List Reservation) (r : Reservation)
    → find_key r.idempotency_key rows ≡ none
    → find_key r.idempotency_key (rows ++ r ∷ []) ≡ some r
unfolding find_key
find_key-snoc [] r h = ground (arith, eq_refl r.idempotency_key)
find_key-snoc (x ∷ rows) r h = ground (arith, find_key-snoc rows r)

reserve_on_file :
    (p : Percent) (q : ReservationRequest) (tl : Option ℕ) (allowance : ℕ) (db : Tables)
    (r : Reservation)
    → find_key q.idempotency_key db.reservations ≡ some r
    → replays r q ≡ true
    → reserve p q tl allowance db ≡ ok (result_of q false, db)
unfolding reserve
reserve_on_file p q tl allowance db r found same = rw (found, reserve) (rw same)

find_key-Writes :
    (q : ReservationRequest) (tl : Option ℕ) (allowance : ℕ) (db db' : Tables)
    → find_key q.idempotency_key db.reservations ≡ none
    → Writes q tl allowance db db'
    → find_key q.idempotency_key db'.reservations ≡ some (reserved_row q)
find_key-Writes q tl allowance db db' absent w =
    ap (find_key q.idempotency_key) w.appended
    ∙ find_key-snoc db.reservations (reserved_row q) absent

reserve_replayed :
    (p : Percent) (q : ReservationRequest) (tl : Option ℕ) (allowance : ℕ) (db db' : Tables)
    (res : ReservationResult) (r : Reservation)
    → find_key q.idempotency_key db.reservations ≡ some r
    → reserve p q tl allowance db ≡ ok (res, db')
    → (db' ≡ db) × (replays r q ≡ true)
unfolding reserve
reserve_replayed p q tl allowance db db' res r found h = ground arith

pub reserve_absent :
    (p : Percent) (q : ReservationRequest) (tl : Option ℕ) (allowance : ℕ) (db : Tables)
    → find_key q.idempotency_key db.reservations ≡ none
    → reserve p q tl allowance db ≡ reserve_new p q tl allowance db
unfolding reserve
reserve_absent p q tl allowance db absent = rw (absent, reserve)

-- A reservation that was granted may be asked for again, under any task limit and allowance: the
-- call returns the same identity and amount, reports no warning and changes no table.
reserve_idempotent :
    (p : Percent) (q : ReservationRequest) (tl tl' : Option ℕ) (allowance allowance' : ℕ)
    (db db' : Tables) (res : ReservationResult)
    → reserve p q tl allowance db ≡ ok (res, db')
    → reserve p q tl' allowance' db' ≡ ok (result_of q false, db')
reserve_idempotent p q tl tl' allowance allowance' db db' res h =
    elim (Option-cases (find_key q.idempotency_key db.reservations)) [
      | inl absent ↦
          let w =
            reserve_new-Writes p q tl allowance db res db' absent
              (sym (reserve_absent p q tl allowance db absent) ∙ h) in
          reserve_on_file p q tl' allowance' db' (reserved_row q)
            (find_key-Writes q tl allowance db db' absent w) (replays-reserved_row q)
      | inr (r, found) ↦
          let (same, match) = reserve_replayed p q tl allowance db db' res r found h in
          reserve_on_file p q tl' allowance' db' r
            (ap (λ (t : Tables). find_key q.idempotency_key t.reservations) same ∙ found) match
    ]

pub snapshot-eq :
    (db : Tables) (run_id : String) (limit : Option ℕ)
    → get db.runs run_id ≡ some limit
    → snapshot db run_id ≡ ok (snapshot_of db run_id limit)
unfolding snapshot
snapshot-eq db run_id limit g = rw (g, snapshot)

exceeds_iff :
    (db : Tables) (run_id : String) (n l : ℕ)
    → (exceeds n (snapshot_of db run_id (some l)).available_usd ≡ false)
      ↔ (n + committed run_id db ≤ l)
unfolding ◌-ℤ◌
exceeds_iff db run_id n l = (
  λ h. ground (arith, spent-split run_id db.usage_records),
  λ h. ground (arith, spent-split run_id db.usage_records),
)

update_warning-total :
    (p : Percent) (db : Tables) (run_id : String) (limit : Option ℕ)
    → get db.runs run_id ≡ some limit
    → (w : Tables × Bool) × (update_warning p db run_id ≡ ok w)
unfolding update_warning
update_warning-total p db run_id limit g =
    (warned p db run_id (snapshot_of db run_id limit), rw (snapshot-eq db run_id limit g))

create_reservation-eq :
    (q : ReservationRequest) (db : Tables)
    → admits_row db q ≡ true
    → create_reservation q db
      ≡ ok (record db { reservations = db.reservations ++ reserved_row q ∷ [] })
unfolding create_reservation
create_reservation-eq q db admitted = ground arith

reserve_new_runs :
    (p : Percent) (q : ReservationRequest) (tl : Option ℕ) (allowance : ℕ) (db db1 : Tables)
    (s : BudgetSnapshot) (w : Tables × Bool)
    → snapshot db q.run_id ≡ ok s
    → exceeds (q.amount_usd + allowance) s.available_usd ≡ false
    → task_exceeds db q tl q.task_id ≡ false
    → create_reservation q db ≡ ok db1
    → update_warning p db1 q.run_id ≡ ok w
    → reserve_new p q tl allowance db ≡ ok (result_of q w.1, w.0)
unfolding reserve_new
reserve_new_runs p q tl allowance db db1 s w e1 e2 e3 e4 e5 = ground arith

-- What the task has used and reserved leaves room for the amount, when both a task and a limit for it
-- are given.
abbrev pub FitsTask : Tables → ReservationRequest → Option ℕ → Option String → Type 0
FitsTask db q (some l) (some t) = task_committed_usd db q.run_id t + q.amount_usd ≤ l
FitsTask db q _ _ = Unit

FitsTask-iff :
    (db : Tables) (q : ReservationRequest) (tl : Option ℕ) (t : Option String)
    → (task_exceeds db q tl t ≡ false) ↔ FitsTask db q tl t
FitsTask-iff db q none none = ((λ h. tt), (λ h. refl))
FitsTask-iff db q none (some t) = ((λ h. tt), (λ h. refl))
FitsTask-iff db q (some l) none = ((λ h. tt), (λ h. refl))
FitsTask-iff db q (some l) (some t) = ((λ h. ground (arith, h)), (λ h. ground (arith, h)))

-- Under a key that is not on file and for a row that the table's constraints admit, a run with a
-- limit is granted a reservation exactly when the amount, the allowance for the lead and all that the
-- run has spent and reserved fit its limit, and the amount fits the limit of the task beside all that
-- the task has used and reserved, where a task and a limit for it are given.
pub reserve_granted_iff :
    (p : Percent) (q : ReservationRequest) (task_limit : Option ℕ) (allowance l : ℕ) (db : Tables)
    → find_key q.idempotency_key db.reservations ≡ none
    → admits_row db q ≡ true
    → get db.runs q.run_id ≡ some (some l)
    → ((res : ReservationResult) × (db' : Tables) × (reserve p q task_limit allowance db
          ≡ ok (res, db')))
      ↔ (q.amount_usd + allowance + committed q.run_id db ≤ l) × FitsTask db q task_limit q.task_id
reserve_granted_iff p q task_limit allowance l db absent admitted g = (
  λ (res, db', h).
      let made = sym (reserve_absent p q task_limit allowance db absent) ∙ h in
      (
        (reserve_new-Writes p q task_limit allowance db res db' absent made).fits l g,
        (FitsTask-iff db q task_limit q.task_id).0
            (reserve_new-Trace p q task_limit allowance db res db' made).task_fits,
      ),
  λ (fits, fits_task).
      let db1 = record db { reservations = db.reservations ++ reserved_row q ∷ [] } in
      let (w, done) = update_warning-total p db1 q.run_id (some l) g in
      (
        result_of q w.1,
        w.0,
        reserve_absent p q task_limit allowance db absent
            ∙ reserve_new_runs p q task_limit allowance db db1 _ w
                (snapshot-eq db q.run_id (some l) g)
                ((exceeds_iff db q.run_id (q.amount_usd + allowance) l).1 fits)
                ((FitsTask-iff db q task_limit q.task_id).1 fits_task)
                (create_reservation-eq q db admitted) done,
      ),
)
