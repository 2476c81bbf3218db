-- ===== src/Routing/Assignment/Releases.antt =====
-- What the release of a fallback's source does to the ledger.
use skail.Prelude.{
  String, ◌≡◌, refl, sym, subst, ◌∙◌, true, false, Option, none, some, [], ◌∷◌, arith, Result, ok,
  returns_both, Bool-cases, Option-cases, inl, inr, ◌⊎◌, str_eq,
}
use skail.Routing.Budget.Tables.{
  Tables, Reservation, ReservationStatus, reserved, released, status_eq,
}
use skail.Routing.Budget.Operations.{Percent, find_reservation, set_status, update_warning}
use skail.Routing.Budget.Accounts.{Frees, update_warning-keeps}
use skail.Routing.Assignment.Tables.{
  AssignmentRequest, AssignmentRow, Store, from_ledger, AssignError, budget_released,
}
use skail.Routing.Assignment.Lookups.{
  FallbackSource, fallback_source, with_reservation, source_of, find_assignment,
}
use skail.Routing.Assignment.Persisting.{append_events, release_if, release_source}
use skail.Routing.Assignment.Service.{credit}
use skail.Routing.Assignment.Traces.{from_ledger-ok}

-- The reservation that a fallback takes over is on file under the identity that the source names.
abbrev IsOnFile : Tables → Option FallbackSource → Type 0
IsOnFile db none = Unit
IsOnFile db (some s) =
    (r : Reservation) × (find_reservation s.reservation_id db.reservations ≡ some r)
    × (s.status ≡ r.status)
    × (s.amount_usd ≡ r.amount_usd)

same_source :
    (x y : Option FallbackSource)
    → ◌≡◌ {A = Result AssignError (Option FallbackSource)} (ok x) (ok y)
    → x ≡ y
same_source x y h = ground (arith, h)

with_reservation-IsOnFile :
    (db : Tables) (model id : String) (source : Option FallbackSource)
    → with_reservation model id (find_reservation id db.reservations) ≡ ok source
    → IsOnFile db source
with_reservation-IsOnFile db model id source h =
    elim (Option-cases (find_reservation id db.reservations)) [
      | inl absent ↦ let g = rw absent at h in cc
      | inr (r, found) ↦
          subst (IsOnFile db) (same_source _ source (rw found at h)) (r, found, refl, refl)
    ]

source_of-IsOnFile :
    (st : Store) (q : AssignmentRequest) (row : Option AssignmentRow)
    (source : Option FallbackSource)
    → source_of st q row ≡ ok source
    → IsOnFile st.ledger source
source_of-IsOnFile st q none source h = cc
source_of-IsOnFile st q (some a) source h = elim (Bool-cases (str_eq a.attempt_id q.attempt_id)) [
  | inl same ↦
      with_reservation-IsOnFile st.ledger a.model a.payload.assignment.reservation_id source
        (rw same at h)
  | inr foreign ↦ let g = rw foreign at h in cc
]

pub fallback_source-IsOnFile :
    (st : Store) (q : AssignmentRequest) (source : Option FallbackSource)
    → fallback_source st q ≡ ok source
    → IsOnFile st.ledger source
unfolding fallback_source
fallback_source-IsOnFile st q source h = elim (Option-cases q.fallback_of_assignment_id) [
  | inl primary ↦ subst (IsOnFile st.ledger) (same_source none source (rw primary at h)) tt
  | inr (id, fallback) ↦
      source_of-IsOnFile st q (find_assignment id st.assignments) source (rw fallback at h)
]

status_eq-reserved : (s : ReservationStatus) → status_eq s reserved ≡ true → s ≡ reserved
status_eq-reserved ReservationStatus.reserved h = refl
status_eq-reserved ReservationStatus.released h = cc
status_eq-reserved ReservationStatus.settled h = cc
status_eq-reserved ReservationStatus.active h = cc

-- The writes of a release of the source.
pub record Released (q : AssignmentRequest) (s : FallbackSource) (st st' : Store) : Type 0 where
  pub ledger : Tables
  pub frees : Frees s.reservation_id st.ledger ledger
  pub amount : s.amount_usd ≡ frees.row.amount_usd
  pub written : st' ≡ record st {
    ledger = ledger;
    events = append_events q.run_id (budget_released s.amount_usd ∷ []) st.events;
  }

released_store : {st st' : Store} → ◌≡◌ {A = Result AssignError Store} (ok st) (ok st') → st ≡ st'
released_store h = ground (arith, h)

release_reserved :
    (p : Percent) (q : AssignmentRequest) (s : FallbackSource) (st st' : Store)
    → IsOnFile st.ledger (some s)
    → status_eq s.status reserved ≡ true
    → release_source p q s st ≡ ok st'
    → Released q s st st'
unfolding release_source
release_reserved p q s st st' (r, found, same, amount) e h =
    let db1 : Tables = record st.ledger {
      reservations = set_status s.reservation_id released st.ledger.reservations;
    } in
    let (w, h1, e1) = returns_both _ (from_ledger (update_warning p db1 q.run_id)) (rw e at h) in
    let (runs, _, rows, usage) = update_warning-keeps p db1 q.run_id w (from_ledger-ok _ w e1) in
    record {
      ledger = w.0;
      frees = record {
        row = r;
        found = found;
        live = sym same ∙ status_eq-reserved s.status e;
        same_runs = runs;
        same_usage = usage;
        updated = rows;
      };
      amount = amount;
      written = sym (released_store h1);
    }

release_unreserved :
    (p : Percent) (q : AssignmentRequest) (s : FallbackSource) (st st' : Store)
    → status_eq s.status reserved ≡ false
    → release_source p q s st ≡ ok st'
    → st' ≡ st
unfolding release_source
release_unreserved p q s st st' dead h = sym (released_store (rw dead at h))

-- A release without a reserved source writes nothing; with one it is a release of the ledger.
pub release_cases :
    (p : Percent) (q : AssignmentRequest) (source : Option FallbackSource) (st st' : Store)
    → IsOnFile st.ledger source
    → release_if p q source st ≡ ok st'
    → (st' ≡ st) × (credit source ≡ 0)
      ⊎ ((s : FallbackSource) × (source ≡ some s)
          × Released q s st st'
          × (credit source ≡ s.amount_usd))
release_cases p q none st st' f h = inl (sym (released_store h), refl)
release_cases p q (some s) st st' f h = elim (Bool-cases (status_eq s.status reserved)) [
  | inl live ↦ inr (s, refl, release_reserved p q s st st' f live h, rw live refl)
  | inr dead ↦ inl (release_unreserved p q s st st' dead h, rw dead refl)
]
