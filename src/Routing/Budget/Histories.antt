-- ===== src/Routing/Budget/Histories.antt =====
-- Histories of ledger operations: a refused operation is rolled back and is no step.
use skail.Prelude.{ℕ, ◌≤◌, String, ◌≡◌, inl, inr, Option, some, ok, subst, sym}
use skail.Prelude.Dict.{get}
use skail.Routing.Budget.Tables.{Tables, ReservationRequest, ReservationResult}
use skail.Routing.Budget.Operations.{Percent, reserve, release}
use skail.Routing.Budget.Settle.{Settlement, settle}
use skail.Routing.Budget.Rows.{committed}
use skail.Routing.Budget.Accounts.{reserve_cases, release_cases}
use skail.Routing.Budget.Settlements.{settle_cases}
use skail.Routing.Budget.Limits.{
  IsWithin, IsCovered, Writes-IsWithin, Frees-IsWithin, Settles-IsWithin, Rewrites-IsWithin,
}

pub data Step (p : Percent) : Tables → Tables → Type 0 where
  reserving :
      {db db' : Tables} (q : ReservationRequest) (task_limit_usd : Option ℕ) (allowance : ℕ)
      (res : ReservationResult)
      → reserve p q task_limit_usd allowance db ≡ ok (res, db')
      → Step p db db'
  releasing : {db db' : Tables} (id : String) → release p id db ≡ ok db' → Step p db db'
  settling :
      {db db' : Tables} (q : Settlement) → settle p q db ≡ ok db' → IsCovered q db → Step p db db'

pub data History (p : Percent) (db : Tables) : Tables → Type 0 where
  start : History p db db
  next : {db' db'' : Tables} → History p db db' → Step p db' db'' → History p db db''

pub Step-IsWithin : {p : Percent} {db db' : Tables} → Step p db db' → IsWithin db → IsWithin db'
Step-IsWithin {p} {db} {db'} (reserving q tl allowance res h) v =
    elim (reserve_cases p q tl allowance db res db' h) [
      | inl same ↦ subst IsWithin (sym same) v
      | inr w ↦ Writes-IsWithin q tl allowance db db' v w
    ]
Step-IsWithin {p} {db} {db'} (releasing id h) v = elim (release_cases p id db db' h) [
  | inl same ↦ subst IsWithin (sym same) v
  | inr f ↦ Frees-IsWithin id db db' v f
]
Step-IsWithin {p} {db} {db'} (settling q h c) v = elim (settle_cases p q db db' h) [
  | inl same ↦ subst IsWithin (sym same) v
  | inr (inl s) ↦ Settles-IsWithin q db db' v c s
  | inr (inr r) ↦ Rewrites-IsWithin q db db' v c r
]

History-IsWithin : {p : Percent} {db db' : Tables} → History p db db' → IsWithin db → IsWithin db'
History-IsWithin start v = v
History-IsWithin (next h s) v = Step-IsWithin s (History-IsWithin h v)

-- From tables in which the limits hold and the keys are distinct, any history of reservations,
-- releases and settlements, whose settled costs are covered by what is on file, leaves each run
-- with a limit at a sum of usage and live reservations that is at most the limit.
pub History-limited :
    (p : Percent) (db db' : Tables) (run_id : String) (l : ℕ)
    → History p db db'
    → IsWithin db
    → get db'.runs run_id ≡ some (some l)
    → committed run_id db' ≤ l
History-limited p db db' run_id l h v g = (History-IsWithin h v).limited run_id l g
