-- ===== src/Routing/Budget/Settlements.antt =====
-- What `settle` does to the tables when it returns.
use skail.Prelude.{
  ℕ, ◌≡◌, ◌⊎◌, inl, inr, Bool, true, false, none, some, [], ◌∷◌, ◌++◌, arith, ok, err, ◌>>=◌,
  Option-cases,
}
use skail.Routing.Budget.Tables.{
  reserved, settled, Reservation, UsageRecord, Tables, unknown_key, unresolved_cost,
}
use skail.Routing.Budget.Operations.{
  Percent, update_warning, find_reservation, set_status, find_usage, set_usage,
}
use skail.Routing.Budget.Settle.{
  Settlement, settle, settle_new, resettle, usage_row, settled_tables, rewrite_usage, settle_cost,
}
use skail.Routing.Budget.Accounts.{warned_keeps}

-- The first settlement of a reservation.
pub record Settles (q : Settlement) (db db' : Tables) : Type 0 where
  pub row : Reservation
  pub cost : ℕ
  pub found : find_reservation q.reservation_id db.reservations ≡ some row
  pub unused : find_usage q.reservation_id db.usage_records ≡ none
  pub live : row.status ≡ reserved
  pub paid : q.usage.cost_usd ≡ some cost
  pub same_runs : db'.runs ≡ db.runs
  pub recorded : db'.usage_records ≡ db.usage_records ++ usage_row q cost row ∷ []
  pub updated : db'.reservations ≡ set_status q.reservation_id settled db.reservations

-- A later one, which replaces the amount on file.
pub record Rewrites (q : Settlement) (db db' : Tables) : Type 0 where
  pub row : Reservation
  pub old : UsageRecord
  pub cost : ℕ
  pub held : find_reservation q.reservation_id db.reservations ≡ some row
  pub authoritative : Bool
  pub found : find_usage q.reservation_id db.usage_records ≡ some old
  pub paid : q.usage.cost_usd ≡ some cost
  pub same_runs : db'.runs ≡ db.runs
  pub replaced :
      db'.usage_records
      ≡ set_usage q.reservation_id cost authoritative q.usage.authority db.usage_records
  pub same_reservations : db'.reservations ≡ db.reservations

abbrev pub Outcome : Settlement → Tables → Tables → Type 0
Outcome q db db' = (db' ≡ db) ⊎ Settles q db db' ⊎ Rewrites q db db'

module _ (p : Percent) (q : Settlement) (db db' : Tables) where
  settle_missing :
      find_reservation q.reservation_id db.reservations ≡ none
      → settle p q db ≡ err (unknown_key q.reservation_id)
  unfolding settle
  settle_missing absent = rw (absent, settle)

  settle_unpaid :
      (r : Reservation)
      → find_reservation q.reservation_id db.reservations ≡ some r
      → q.usage.cost_usd ≡ none
      → settle p q db ≡ err unresolved_cost
  unfolding settle
  settle_unpaid r found e = rw (found, e, settle)

  pub settle_found :
      (r : Reservation) (cost : ℕ)
      → find_reservation q.reservation_id db.reservations ≡ some r
      → q.usage.cost_usd ≡ some cost
      → settle p q db ≡ settle_cost p q r (find_usage q.reservation_id db.usage_records) db cost
  unfolding settle
  settle_found r cost found e = ground arith

  settle_new_written :
      (r : Reservation) (cost : ℕ)
      → settle_new p q cost r db ≡ ok db'
      → (r.status ≡ reserved)
        × ((update_warning p (settled_tables q cost r db) r.run_id >>= λ w. ok w.0) ≡ ok db')
  unfolding settle_new
  settle_new_written r cost h = ground arith

  resettle_written :
      (u : UsageRecord) (r : Reservation) (cost : ℕ)
      → resettle p q cost u r.run_id db ≡ ok db'
      → (db' ≡ db)
        ⊎ (rewrite_usage p q cost true r.run_id db ≡ ok db')
        ⊎ (rewrite_usage p q cost false r.run_id db ≡ ok db')
  unfolding resettle
  resettle_written u r cost h = ground arith

  pub Settles-of :
      (r : Reservation) (cost : ℕ)
      → find_reservation q.reservation_id db.reservations ≡ some r
      → find_usage q.reservation_id db.usage_records ≡ none
      → q.usage.cost_usd ≡ some cost
      → settle_new p q cost r db ≡ ok db'
      → Settles q db db'
  Settles-of r cost found unused paid h =
      let (live, e) = settle_new_written r cost h in
      let (runs, reservations, usage) =
        warned_keeps p (settled_tables q cost r db) db' r.run_id e in
      record {
        row = r;
        cost = cost;
        found = found;
        unused = unused;
        live = live;
        paid = paid;
        same_runs = runs;
        recorded = usage;
        updated = reservations;
      }

  Rewrites-of :
      (r : Reservation) (u : UsageRecord) (cost : ℕ) (auth : Bool)
      → find_reservation q.reservation_id db.reservations ≡ some r
      → find_usage q.reservation_id db.usage_records ≡ some u
      → q.usage.cost_usd ≡ some cost
      → rewrite_usage p q cost auth r.run_id db ≡ ok db'
      → Rewrites q db db'
  unfolding rewrite_usage
  Rewrites-of r u cost auth held found paid h =
      let (runs, reservations, usage) = warned_keeps p _ db' r.run_id h in
      record {
        row = r;
        old = u;
        held = held;
        cost = cost;
        authoritative = auth;
        found = found;
        paid = paid;
        same_runs = runs;
        replaced = usage;
        same_reservations = reservations;
      }

  settle_found_cases :
      (r : Reservation) (cost : ℕ)
      → find_reservation q.reservation_id db.reservations ≡ some r
      → q.usage.cost_usd ≡ some cost
      → settle p q db ≡ ok db'
      → Outcome q db db'
  settle_found_cases r cost found paid h =
      elim (Option-cases (find_usage q.reservation_id db.usage_records)) [
        | inl unused ↦ inr (
            inl (
              Settles-of r cost found unused paid
                (rw (settle_found r cost found paid, unused) at h)))
        | inr (u, used) ↦
            elim (resettle_written u r cost (rw (settle_found r cost found paid, used) at h)) [
              | inl same ↦ inl same
              | inr (inl e) ↦ inr (inr (Rewrites-of r u cost true found used paid e))
              | inr (inr e) ↦ inr (inr (Rewrites-of r u cost false found used paid e))
            ]
      ]

  -- A call of `settle` that returns has found the same usage on file and changed nothing, or has
  -- settled a reservation for the first time, or has replaced the amount of its usage.
  pub settle_cases : settle p q db ≡ ok db' → Outcome q db db'
  settle_cases h = elim (Option-cases (find_reservation q.reservation_id db.reservations)) [
    | inl absent ↦ cc (settle_missing absent)
    | inr (r, found) ↦ elim (Option-cases q.usage.cost_usd) [
      | inl unpaid ↦ cc (settle_unpaid r found unpaid)
      | inr (cost, paid) ↦ settle_found_cases r cost found paid h
    ]
  ]
