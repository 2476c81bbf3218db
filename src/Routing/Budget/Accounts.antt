-- ===== src/Routing/Budget/Accounts.antt =====
-- What each operation of the ledger does to the tables when it returns.
use skail.Prelude.{
  ℕ, ◌+◌, ◌≤◌, String, ◌≡◌, ◌⊎◌, inl, inr, Bool, false, Option, none, some, [], ◌∷◌, ◌++◌, str_eq,
  arith, ◌>>=◌, Result, ok, err, returns_both, raise_if-passed, Option-cases, any,
}
use skail.Prelude.Int.{◌-ℤ◌}
use skail.Prelude.Dict.{get}
use skail.Routing.Budget.Tables.{
  reserved, released, Reservation, Tables, ReservationRequest, ReservationResult, BudgetSnapshot,
  LedgerError, unknown_key, snapshot, task_committed_usd,
}
use skail.Routing.Budget.Operations.{
  Percent, update_warning, find_key, find_reservation, exceeds, task_exceeds, reserved_row,
  create_reservation, reserve_new, reserve, set_status, release, result_of,
}
use skail.Routing.Budget.Rows.{committed, spent-split, IsFresh, any-false-IsFresh}

-- An update of the warning state writes nothing else.
pub update_warning-keeps :
    (p : Percent) (db : Tables) (run_id : String) (w : Tables × Bool)
    → update_warning p db run_id ≡ ok w
    → (w.0.runs ≡ db.runs)
      × (w.0.tasks ≡ db.tasks)
      × (w.0.reservations ≡ db.reservations)
      × (w.0.usage_records ≡ db.usage_records)
unfolding update_warning
update_warning-keeps p db run_id w h = ground arith

fits_limit :
    (db : Tables) (run_id : String) (s : BudgetSnapshot) (n l : ℕ)
    → snapshot db run_id ≡ ok s
    → exceeds n s.available_usd ≡ false
    → get db.runs run_id ≡ some (some l)
    → n + committed run_id db ≤ l
unfolding snapshot ◌-ℤ◌
fits_limit db run_id s n l e h g = ground (arith, spent-split run_id db.usage_records)

-- What a call of `reserve` that wrote a reservation has checked and written.
pub record Writes (q : ReservationRequest) (task_limit_usd : Option ℕ) (allowance : ℕ)
    (db db' : Tables) : Type 0 where
  pub fits :
      (l : ℕ)
      → get db.runs q.run_id ≡ some (some l)
      → q.amount_usd + allowance + committed q.run_id db ≤ l
  pub fits_task :
      (l : ℕ) (t : String)
      → task_limit_usd ≡ some l
      → q.task_id ≡ some t
      → task_committed_usd db q.run_id t + q.amount_usd ≤ l
  pub fresh : IsFresh q.reservation_id db.reservations
  pub same_runs : db'.runs ≡ db.runs
  pub same_usage : db'.usage_records ≡ db.usage_records
  pub appended : db'.reservations ≡ db.reservations ++ reserved_row q ∷ []

created :
    (q : ReservationRequest) (db db' : Tables)
    → find_key q.idempotency_key db.reservations ≡ none
    → create_reservation q db ≡ ok db'
    → (any (λ (r : Reservation). str_eq r.reservation_id q.reservation_id) db.reservations ≡ false)
      × (db' ≡ record db { reservations = db.reservations ++ reserved_row q ∷ [] })
unfolding create_reservation
created q db db' absent h = ground arith

fits_task_limit :
    (q : ReservationRequest) (task_limit_usd : Option ℕ) (db : Tables) (l : ℕ) (t : String)
    → task_exceeds db q task_limit_usd q.task_id ≡ false
    → task_limit_usd ≡ some l
    → q.task_id ≡ some t
    → task_committed_usd db q.run_id t + q.amount_usd ≤ l
fits_task_limit q task_limit_usd db l t h e f = ground arith

-- The steps of a call that writes a reservation.
pub record Trace (p : Percent) (q : ReservationRequest) (tl : Option ℕ) (allowance : ℕ)
    (db db' : Tables) (res : ReservationResult) : Type 0 where
  pub seen : BudgetSnapshot
  pub looked : snapshot db q.run_id ≡ ok seen
  pub run_fits : exceeds (q.amount_usd + allowance) seen.available_usd ≡ false
  pub task_fits : task_exceeds db q tl q.task_id ≡ false
  pub written : Tables
  pub wrote : create_reservation q db ≡ ok written
  pub last : Tables × Bool
  pub updated : update_warning p written q.run_id ≡ ok last
  pub final : db' ≡ last.0
  pub crossed : res.warning_crossed ≡ last.1

last_eq :
    (q : ReservationRequest) (w : Tables × Bool) (res : ReservationResult) (db' : Tables)
    → ◌≡◌ {A = Result LedgerError (ReservationResult × Tables)}
        (ok (result_of q w.1, w.0))
        (ok (res, db'))
    → (db' ≡ w.0) × (res.warning_crossed ≡ w.1)
last_eq q w res db' h = ground arith

pub reserve_new-Trace :
    (p : Percent) (q : ReservationRequest) (tl : Option ℕ) (allowance : ℕ) (db : Tables)
    (res : ReservationResult) (db' : Tables)
    → reserve_new p q tl allowance db ≡ ok (res, db')
    → Trace p q tl allowance db db' res
unfolding reserve_new
reserve_new-Trace p q tl allowance db res db' h =
    let (s, h1, es) = returns_both _ (snapshot db q.run_id) h in
    let (run_ok, h2) = raise_if-passed _ _ _ h1 in
    let (task_ok, h3) = raise_if-passed _ _ _ h2 in
    let (db1, h4, ec) = returns_both _ (create_reservation q db) h3 in
    let (w, h5, ew) = returns_both _ (update_warning p db1 q.run_id) h4 in
    let (final, crossed) = last_eq q w res db' h5 in
    record {
      seen = s;
      looked = es;
      run_fits = run_ok;
      task_fits = task_ok;
      written = db1;
      wrote = ec;
      last = w;
      updated = ew;
      final = final;
      crossed = crossed;
    }

pub reserve_new-Writes :
    (p : Percent) (q : ReservationRequest) (tl : Option ℕ) (allowance : ℕ) (db : Tables)
    (res : ReservationResult) (db' : Tables)
    → find_key q.idempotency_key db.reservations ≡ none
    → reserve_new p q tl allowance db ≡ ok (res, db')
    → Writes q tl allowance db db'
reserve_new-Writes p q tl allowance db res db' absent h =
    let t = reserve_new-Trace p q tl allowance db res db' h in
    let (absent_id, same) = created q db t.written absent t.wrote in
    let (runs, _, rows, usage) = update_warning-keeps p t.written q.run_id t.last t.updated in
    let final = t.final in
    record {
      fits =
          λ l g. fits_limit db q.run_id t.seen (q.amount_usd + allowance) l t.looked t.run_fits g;
      fits_task = λ l task e f. fits_task_limit q tl db l task t.task_fits e f;
      fresh = any-false-IsFresh q.reservation_id db.reservations absent_id;
      same_runs = cc;
      same_usage = cc;
      appended = cc;
    }

-- A call of `reserve` that returns has replayed a reservation that is on file under the key, and
-- changed nothing, or has written a new row.
pub reserve_cases :
    (p : Percent) (q : ReservationRequest) (task_limit_usd : Option ℕ) (allowance : ℕ) (db : Tables)
    (res : ReservationResult) (db' : Tables)
    → reserve p q task_limit_usd allowance db ≡ ok (res, db')
    → (db' ≡ db) ⊎ Writes q task_limit_usd allowance db db'
unfolding reserve
reserve_cases p q tl allowance db res db' h =
    elim (Option-cases (find_key q.idempotency_key db.reservations)) [
      | inl absent ↦
          inr (reserve_new-Writes p q tl allowance db res db' absent (rw (absent, reserve) at h))
      | inr (r, present) ↦ inl (ground arith)
    ]

-- What a call of `release` that wrote has found and written.
pub record Frees (id : String) (db db' : Tables) : Type 0 where
  pub row : Reservation
  pub found : find_reservation id db.reservations ≡ some row
  pub live : row.status ≡ reserved
  pub same_runs : db'.runs ≡ db.runs
  pub same_usage : db'.usage_records ≡ db.usage_records
  pub updated : db'.reservations ≡ set_status id released db.reservations

pub warned_keeps :
    (p : Percent) (db db' : Tables) (run_id : String)
    → (update_warning p db run_id >>= λ w. ok w.0) ≡ ok db'
    → (db'.runs ≡ db.runs)
      × (db'.reservations ≡ db.reservations)
      × (db'.usage_records ≡ db.usage_records)
warned_keeps p db db' run_id h =
    let (w, e, ew) = returns_both _ (update_warning p db run_id) h in
    let (runs, _, reservations, usage) = update_warning-keeps p db run_id w ew in (cc, cc, cc)

release_missing :
    (p : Percent) (id : String) (db : Tables)
    → find_reservation id db.reservations ≡ none
    → release p id db ≡ err (unknown_key id)
unfolding release
release_missing p id db absent = rw (absent, release)

release_live :
    (p : Percent) (id : String) (db db' : Tables) (r : Reservation)
    → find_reservation id db.reservations ≡ some r
    → release p id db ≡ ok db'
    → (db' ≡ db)
      ⊎ (r.status ≡ reserved)
        × ((update_warning p
                (record db { reservations = set_status id released db.reservations })
                r.run_id
              >>= λ w. ok w.0)
            ≡ ok db')
unfolding release
release_live p id db db' r e h = ground arith

pub release_cases :
    (p : Percent) (id : String) (db db' : Tables)
    → release p id db ≡ ok db'
    → (db' ≡ db) ⊎ Frees id db db'
release_cases p id db db' h = elim (Option-cases (find_reservation id db.reservations)) [
  | inl absent ↦ cc (h, release_missing p id db absent)
  | inr (r, found) ↦ elim (release_live p id db db' r found h) [
    | inl same ↦ inl same
    | inr (live, e) ↦
        let (runs, reservations, usage) = warned_keeps p _ db' r.run_id e in
        inr (record {
          row = r;
          found = found;
          live = live;
          same_runs = runs;
          same_usage = usage;
          updated = reservations;
        })
  ]
]
