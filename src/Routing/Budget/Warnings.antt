-- ===== src/Routing/Budget/Warnings.antt =====
-- The warning of a run is edge-triggered on the share of its limit that is committed.
use skail.Prelude.{
  ℕ, ◌+◌, ◌*◌, String, ◌≡◌, Bool, not, ◌&&◌, Option, none, some, arith, ok, sym, ltb, leb, eq_refl,
  ◌∙◌, ap,
}
use skail.Prelude.Int.{pos, ◌-ℤ◌, int_laws}
use skail.Prelude.Dict.{Dict, get, put, get-put}
use skail.Routing.Budget.Tables.{Tables, ReservationRequest, ReservationResult, snapshot_of}
use skail.Routing.Budget.Operations.{
  Percent, find_key, reserve, update_warning, is_above, was_above, or_zero, create_reservation,
}
use skail.Routing.Budget.Rows.{committed, spent-split}
use skail.Routing.Budget.Replays.{snapshot-eq, reserve_absent}
use skail.Routing.Budget.Accounts.{reserve_new-Trace}

used_eq :
    (db : Tables) (run_id : String) (l : ℕ)
    → pos l -ℤ or_zero (snapshot_of db run_id (some l)).available_usd ≡ pos (committed run_id db)
used_eq db run_id l = omega (int_laws, spent-split run_id db.usage_records)

is_above-limit :
    (p : Percent) (db : Tables) (run_id : String) (l : ℕ)
    → is_above p (snapshot_of db run_id (some l))
      ≡ (ltb 0 l && leb (l * p.num + 0 * p.den) (committed run_id db * p.den))
unfolding is_above
is_above-limit p db run_id l = rw (used_eq db run_id l, is_above)

-- At least the share `warning_percent` of a positive limit is committed.
abbrev is_over : Percent → Tables → String → ℕ → Bool
is_over p db run_id l = ltb 0 l && leb (l * p.num) (committed run_id db * p.den)

is_above-is_over :
    (p : Percent) (db : Tables) (run_id : String) (l : ℕ)
    → is_above p (snapshot_of db run_id (some l)) ≡ is_over p db run_id l
is_above-is_over p db run_id l =
    is_above-limit p db run_id l
    ∙ ap (λ (n : ℕ). ltb 0 l && leb n (committed run_id db * p.den)) (omega arith)

update_warning-exact :
    (p : Percent) (db : Tables) (run_id : String) (l : ℕ) (w : Tables × Bool)
    → update_warning p db run_id ≡ ok w
    → get db.runs run_id ≡ some (some l)
    → w ≡ (
      record db { warnings = put db.warnings run_id (is_over p db run_id l) },
      is_over p db run_id l && not (was_above (get db.warnings run_id)),
    )
unfolding update_warning
update_warning-exact p db run_id l w h g =
    let e = rw (snapshot-eq db run_id (some l) g, is_above-is_over p db run_id l) at h in
    ground arith

create_reservation-keeps :
    (q : ReservationRequest) (db db1 : Tables)
    → create_reservation q db ≡ ok db1
    → (db1.runs ≡ db.runs) × (db1.warnings ≡ db.warnings)
unfolding create_reservation
create_reservation-keeps q db db1 h = ground arith

last_warning :
    (p : Percent) (db db1 db' : Tables) (run_id : String) (l : ℕ) (w : Tables × Bool)
    (crossed : Bool)
    → w ≡ (
      record db1 { warnings = put db1.warnings run_id (is_over p db1 run_id l) },
      is_over p db1 run_id l && not (was_above (get db1.warnings run_id)),
    )
    → db1.warnings ≡ db.warnings
    → db' ≡ w.0
    → crossed ≡ w.1
    → (get db'.warnings run_id ≡ some (is_over p db' run_id l))
      × (crossed ≡ (is_over p db' run_id l && not (was_above (get db.warnings run_id))))
last_warning p db db1 db' run_id l w crossed e f g h =
    let final = g ∙ ap (λ (v : Tables × Bool). v.0) e in
    let reported = h ∙ ap (λ (v : Tables × Bool). v.1) e in
    rw final (rw (get-put, eq_refl), rw (← f) reported)

-- A reservation under a new key, for a run with a limit, records whether the committed share of
-- the limit is now at the warning threshold, and reports a crossing exactly when it is and the
-- state on file said that it was not.
reserve_warns :
    (p : Percent) (q : ReservationRequest) (tl : Option ℕ) (allowance l : ℕ) (db db' : Tables)
    (res : ReservationResult)
    → find_key q.idempotency_key db.reservations ≡ none
    → get db.runs q.run_id ≡ some (some l)
    → reserve p q tl allowance db ≡ ok (res, db')
    → (get db'.warnings q.run_id ≡ some (is_over p db' q.run_id l))
      × (res.warning_crossed
          ≡ (is_over p db' q.run_id l && not (was_above (get db.warnings q.run_id))))
reserve_warns p q tl allowance l db db' res absent g h =
    let t =
      reserve_new-Trace p q tl allowance db res db'
        (sym (reserve_absent p q tl allowance db absent) ∙ h) in
    let (runs, warnings) = create_reservation-keeps q db t.written t.wrote in
    last_warning p db t.written db' q.run_id l t.last res.warning_crossed
      (update_warning-exact p t.written q.run_id l t.last t.updated
        (ap (λ (r : Dict (Option ℕ)). get r q.run_id) runs ∙ g))
      warnings t.final t.crossed
