-- ===== src/Routing/Assignment/Accounts.antt =====
-- What an assignment costs the run, and that a limit holds through it.
use skail.Prelude.{
  ℕ, ◌+◌, String, ◌≡◌, sym, subst, ◌∙◌, ap, Option, none, some, arith, ok, inl, inr, ◌⊎◌,
}
use skail.Routing.Budget.Tables.{Tables, Reservation, ReservationResult, ReservationRequest}
use skail.Routing.Budget.Operations.{Percent, reserve, find_reservation}
use skail.Routing.Budget.Rows.{committed}
use skail.Routing.Budget.Accounts.{reserve_cases, reserve_new-Writes}
use skail.Routing.Budget.Replays.{reserve_absent}
use skail.Routing.Budget.Limits.{
  IsWithin, Writes-IsWithin, Frees-IsWithin, share, committed-Writes, committed-Frees,
}
use skail.Routing.Selector.Choice.{RouteSelection}
use skail.Routing.Assignment.Tables.{AssignmentRequest, TaskAssignment, Store}
use skail.Routing.Assignment.Lookups.{decision_key, FallbackSource}
use skail.Routing.Assignment.Persisting.{NewIds, reservation_request}
use skail.Routing.Assignment.Service.{credit}
use skail.Routing.Assignment.Traces.{Persists, Assigns}
use skail.Routing.Assignment.Releases.{fallback_source-IsOnFile, Released, release_cases}
use skail.Routing.Budget.Operations.{find_key}

-- The reservation that a fallback takes over belongs to the run of the request.
abbrev pub IsOwn : Tables → AssignmentRequest → Option FallbackSource → Type 0
IsOwn db q none = Unit
IsOwn db q (some s) =
    (r : Reservation)
    → find_reservation s.reservation_id db.reservations ≡ some r
    → r.run_id ≡ q.run_id

-- `new_reservation_id` and `new_assignment_id` have not been drawn before.
abbrev IsNewKey : ReservationRequest → Tables → Type 0
IsNewKey q db = find_key q.idempotency_key db.reservations ≡ none

share_zero : (owner run_id : String) → share owner run_id 0 ≡ 0
share_zero owner run_id = ground arith

share_eq :
    (run_id : String) {a b : String} {m n : ℕ} → a ≡ b → m ≡ n → share a run_id m ≡ share b run_id n
share_eq run_id e f i = share (e i) run_id (f i)

pub reserve-IsWithin :
    (p : Percent) (request : ReservationRequest) (limit : Option ℕ) (db db' : Tables)
    (result : ReservationResult)
    → reserve p request limit 0 db ≡ ok (result, db')
    → IsWithin db
    → IsWithin db'
reserve-IsWithin p request limit db db' result granted v =
    elim (reserve_cases p request limit 0 db result db' granted) [
      | inl same ↦ subst IsWithin (sym same) v
      | inr writes ↦ Writes-IsWithin request limit 0 db db' v writes
    ]

pub Persists-IsWithin :
    (p : Percent) (ids : NewIds) (q : AssignmentRequest) (s : RouteSelection) (key health : String)
    (st st' : Store)
    → Persists p ids q s key health st st'
    → IsWithin st.ledger
    → IsWithin st'.ledger
Persists-IsWithin p ids q s key health st st' w v =
    subst (λ (x : Store). IsWithin x.ledger) (sym w.written)
      (reserve-IsWithin p (reservation_request ids q s.candidate) q.task_limit_usd st.ledger
        w.ledger w.result w.granted v)

module _ (p : Percent) (ids : NewIds) (q : AssignmentRequest) (st st' : Store)
    (a : TaskAssignment) where
  Released-by :
      (t : Assigns p ids q st a st')
      → (t.freed ≡ st) × (credit t.source ≡ 0)
        ⊎ ((s : FallbackSource) × (t.source ≡ some s)
            × Released q s st t.freed
            × (credit t.source ≡ s.amount_usd))
  Released-by t =
      release_cases p q t.source st t.freed (fallback_source-IsOnFile st q t.source t.found) t.frees

  -- what the ledger holds after the release, and after the reservation that follows
  freed-IsWithin : (t : Assigns p ids q st a st') → IsWithin st.ledger → IsWithin t.freed.ledger
  freed-IsWithin t v = elim (Released-by t) [
    | inl (same, none_back) ↦ subst (λ (s : Store). IsWithin s.ledger) (sym same) v
    | inr (s, named, r, back) ↦
        subst (λ (s : Store). IsWithin s.ledger) (sym r.written)
          (Frees-IsWithin s.reservation_id st.ledger r.ledger v r.frees)
  ]

  pub Assigns-IsWithin : Assigns p ids q st a st' → IsWithin st.ledger → IsWithin st'.ledger
  Assigns-IsWithin t v =
      Persists-IsWithin p ids q t.selection (decision_key q) t.health t.freed st' t.persists
        (freed-IsWithin t v)

  freed_charges :
      (run_id : String) (t : Assigns p ids q st a st')
      → IsWithin st.ledger
      → IsOwn st.ledger q t.source
      → committed run_id t.freed.ledger + share q.run_id run_id (credit t.source)
        ≡ committed run_id st.ledger
  freed_charges run_id t v own = elim (Released-by t) [
    | inl (same, none_back) ↦ omega (
      arith,
      ap (λ (s : Store). committed run_id s.ledger) same,
      ap (share q.run_id run_id) none_back,
      share_zero q.run_id run_id,
    )
    | inr (s, named, r, back) ↦ omega (
      arith,
      ap (λ (s : Store). committed run_id s.ledger) r.written,
      committed-Frees run_id s.reservation_id st.ledger r.ledger r.frees v,
      share_eq run_id (subst (IsOwn st.ledger q) named own r.frees.row r.frees.found)
          (sym r.amount ∙ sym back),
    )
  ]

  persisted_charges :
      (run_id : String) (t : Assigns p ids q st a st')
      → IsNewKey (reservation_request ids q t.selection.candidate) t.freed.ledger
      → committed run_id st'.ledger
        ≡ committed run_id t.freed.ledger + share q.run_id run_id a.estimated_attempt_cost_usd
  persisted_charges run_id t absent =
      let w = t.persists in
      let request = reservation_request ids q t.selection.candidate in
      let writes =
        reserve_new-Writes p request q.task_limit_usd 0 t.freed.ledger w.result w.ledger absent
          (sym (reserve_absent p request q.task_limit_usd 0 t.freed.ledger absent) ∙ w.granted) in
      omega (
        arith,
        ap (λ (s : Store). committed run_id s.ledger) w.written,
        committed-Writes run_id request q.task_limit_usd 0 t.freed.ledger w.ledger writes,
        ap (λ (b : TaskAssignment). share q.run_id run_id b.estimated_attempt_cost_usd) t.made,
      )

  -- The run pays the cost, less what the released source gives back.
  pub Assigns-charges :
      (run_id : String) (t : Assigns p ids q st a st')
      → IsWithin st.ledger
      → IsOwn st.ledger q t.source
      → IsNewKey (reservation_request ids q t.selection.candidate) t.freed.ledger
      → committed run_id st'.ledger + share q.run_id run_id (credit t.source)
        ≡ committed run_id st.ledger + share q.run_id run_id a.estimated_attempt_cost_usd
  Assigns-charges run_id t v own absent =
      omega (arith, freed_charges run_id t v own, persisted_charges run_id t absent)
