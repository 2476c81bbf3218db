-- ===== src/Routing/Assignment/Charges.antt =====
-- What one new assignment costs its run, in terms of the store before and after it.
use skail.Prelude.{
  ◌+◌, String, ◌≡◌, refl, sym, subst, ◌∙◌, ap, Option, none, some, List, [], ◌∷◌, arith, Result, ok,
  inl, inr, str_append,
}
use skail.Routing.Budget.Tables.{Reservation, ReservationStatus, released}
use skail.Routing.Budget.Operations.{Percent, find_key, set_status}
use skail.Routing.Budget.Rows.{committed}
use skail.Routing.Budget.Limits.{IsWithin, share}
use skail.Routing.Selector.Requirements.{RoutingRequirements}
use skail.Routing.Assignment.Tables.{
  AssignmentRequest, RoutingSnapshot, TaskAssignment, Store, assigned, AssignError,
}
use skail.Routing.Assignment.Lookups.{
  decision_key, existing_assignment, FallbackSource, fallback_source,
}
use skail.Routing.Assignment.Persisting.{NewIds}
use skail.Routing.Assignment.Service.{credit, assign_once}
use skail.Routing.Assignment.Traces.{Assigns, assign_once_cases}
use skail.Routing.Assignment.Releases.{fallback_source-IsOnFile, release_cases}
use skail.Routing.Assignment.Accounts.{IsOwn, Assigns-charges}
use skail.Routing.Assignment.Replays.{baseline_shape}

find_key-set_status :
    (key id : String) (s : ReservationStatus) (rows : List Reservation)
    → find_key key rows ≡ none
    → find_key key (set_status id s rows) ≡ none
unfolding find_key set_status
find_key-set_status key id s [] h = refl
find_key-set_status key id s (r ∷ rows) h = ground (arith, find_key-set_status key id s rows, h)

-- The key of the new reservation is not on file after the release of the source either.
freed-find_key :
    (p : Percent) (ids : NewIds) (q : AssignmentRequest) (st : Store) (a : TaskAssignment)
    (st' : Store) (t : Assigns p ids q st a st') (key : String)
    → find_key key st.ledger.reservations ≡ none
    → find_key key t.freed.ledger.reservations ≡ none
freed-find_key p ids q st a st' t key absent =
    elim (release_cases p q t.source st t.freed (fallback_source-IsOnFile st q t.source t.found)
      t.frees) [
        | inl (same, _) ↦
            subst (λ (x : Store). find_key key x.ledger.reservations ≡ none) (sym same) absent
        | inr (s, _, r, _) ↦
            subst (λ (x : Store). find_key key x.ledger.reservations ≡ none) (sym r.written)
              (subst (λ rows. find_key key rows ≡ none) (sym r.frees.updated)
                (find_key-set_status key s.reservation_id released st.ledger.reservations absent))
      ]

same_source :
    (x y : Option FallbackSource)
    → ◌≡◌ {A = Result AssignError (Option FallbackSource)} (ok x) (ok y)
    → x ≡ y
same_source x y h = ground (arith, h)

-- The same for a request with any requirements, which the source and the run do not depend on.
charges_with :
    (p : Percent) (ids : NewIds) (q : AssignmentRequest) (needs : RoutingRequirements)
    (st st' : Store) (a : TaskAssignment) (source : Option FallbackSource) (run_id : String)
    → Assigns p ids (record q { requirements = needs }) st a st'
    → fallback_source st q ≡ ok source
    → IsOwn st.ledger q source
    → IsWithin st.ledger
    → find_key (str_append "assignment-reservation:" ids.assignment_id) st.ledger.reservations
      ≡ none
    → committed run_id st'.ledger + share q.run_id run_id (credit source)
      ≡ committed run_id st.ledger + share q.run_id run_id a.estimated_attempt_cost_usd
unfolding fallback_source
charges_with p ids q needs st st' a source run_id t e own v absent =
    let b : AssignmentRequest = record q { requirements = needs } in
    let same = same_source t.source source (sym t.found ∙ e) in
    ap (λ s. committed run_id st'.ledger + share q.run_id run_id (credit s)) (sym same)
    ∙ Assigns-charges p ids b st st' a run_id t v
        (subst (IsOwn st.ledger b) (sym same) (own_with source own))
        (freed-find_key p ids b st a st' t _ absent)
  where
    own_with :
        (s : Option FallbackSource)
        → IsOwn st.ledger q s
        → IsOwn st.ledger (record q { requirements = needs }) s
    own_with none o = tt
    own_with (some s) o = o

-- A new assignment charges its run with its estimated cost, less the reservation that a fallback
-- takes over while it is still reserved, and charges no other run: where the limits hold, the
-- source's reservation belongs to the run, and the drawn identity is new.
pub assign_once_charges :
    (p : Percent) (ids : NewIds) (q : AssignmentRequest) (r : RoutingSnapshot) (st st' : Store)
    (a : TaskAssignment) (source : Option FallbackSource) (run_id : String)
    → assign_once p ids q r st ≡ ok (assigned a, st')
    → existing_assignment st (decision_key q) ≡ none
    → fallback_source st q ≡ ok source
    → IsOwn st.ledger q source
    → IsWithin st.ledger
    → find_key (str_append "assignment-reservation:" ids.assignment_id) st.ledger.reservations
      ≡ none
    → committed run_id st'.ledger + share q.run_id run_id (credit source)
      ≡ committed run_id st.ledger + share q.run_id run_id a.estimated_attempt_cost_usd
assign_once_charges p ids q r st st' a source run_id h fresh e own v absent =
    let (needs, shape) = baseline_shape st q in
    elim (assign_once_cases p ids q r st (assigned a) st' h).1 [
      | inl (b, present, _, _) ↦ cc (fresh, present)
      | inr (_, t) ↦
          charges_with p ids q needs st st' a source run_id
            (subst (λ b. Assigns p ids b st a st') shape t) e own v absent
    ]
