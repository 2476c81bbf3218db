-- ===== src/Tui/Projection/Agreement.antt =====
-- The budget shown for the current run, against the ledger's own snapshot of that run.
use skail.Prelude.{
  ℕ, ◌+◌, String, false, Option, none, some, List, [], ◌∷◌, ◌≡◌, refl, All, arith, inl, inr,
  Bool-cases, if◌then◌else◌, str_eq,
}
use skail.Prelude.Int.{ℤ, pos_part, int_laws}
use skail.Routing.Budget.Tables.{
  Tables, Reservation, UsageRecord, available, active, reserved_usd, actual_usd, estimated_usd,
  snapshot_of, status_eq,
}
use skail.Tui.Projection.State.{BudgetViewItem, Projection, empty_budget}
use skail.Tui.Projection.Budget.{
  CurrentRun, add_amount, add_agent_cost, add_usage, add_usages, add_reservations, committed_usd,
  with_limit, budget_view, apply_budget_snapshot, belongs_to_current_run,
}

-- a row that names its run; a reservation in a status that the ledger writes
abbrev NamesRun : UsageRecord → Type 0
NamesRun u = str_eq u.run_id "" ≡ false

abbrev IsLedgerRow : Reservation → Type 0
IsLedgerRow r = (str_eq r.run_id "" ≡ false) × (status_eq r.status active ≡ false)

-- `max(0, available)`
abbrev pub or_nothing : Option ℤ → Option ℕ
or_nothing none = none
or_nothing (some z) = some (pos_part z)

add_amount-committed :
    (u : UsageRecord) (b : BudgetViewItem)
    → committed_usd (add_amount u b) ≡ committed_usd b + u.amount_usd
add_amount-committed u b = ground arith

add_agent_cost-committed :
    (t : Option String) (amount : ℕ) (b : BudgetViewItem)
    → committed_usd (add_agent_cost t amount b) ≡ committed_usd b
add_agent_cost-committed none amount b = refl
add_agent_cost-committed (some t) amount b = ground arith

add_usage-committed :
    (u : UsageRecord) (b : BudgetViewItem)
    → committed_usd (add_usage u b) ≡ committed_usd b + u.amount_usd
add_usage-committed u b = omega (
  arith,
  add_amount-committed u b,
  add_agent_cost-committed u.task_id u.amount_usd (add_amount u b),
)

belongs-named :
    (run id : String)
    → str_eq run "" ≡ false
    → str_eq id "" ≡ false
    → belongs_to_current_run run id ≡ str_eq id run
belongs-named run id named names = ground (arith, named, names)

abbrev counted : String → UsageRecord → BudgetViewItem → BudgetViewItem
counted run u b = if belongs_to_current_run run u.run_id then add_usage u b else b

counted-committed :
    (run : String) (u : UsageRecord) (b : BudgetViewItem)
    → str_eq run "" ≡ false
    → NamesRun u
    → committed_usd (counted run u b)
      ≡ committed_usd b + (if str_eq u.run_id run then u.amount_usd else 0)
counted-committed run u b named names = elim (Bool-cases (str_eq u.run_id run)) [
  | inl e ↦ rw (belongs-named run u.run_id named names) (rw e (add_usage-committed u b))
  | inr e ↦ rw (belongs-named run u.run_id named names) (rw e (omega arith))
]

add_usages-committed :
    (run : String) (rows : List UsageRecord) (b : BudgetViewItem)
    → str_eq run "" ≡ false
    → All NamesRun rows
    → committed_usd (add_usages run rows b)
      ≡ committed_usd b + actual_usd run rows + estimated_usd run rows
unfolding add_usages actual_usd estimated_usd
add_usages-committed run [] b named all = omega arith
add_usages-committed run (u ∷ rows) b named all = ground (
  arith,
  add_usages-committed run rows (counted run u b) named all.1,
  counted-committed run u b named all.0,
)

add_reservations-committed :
    (run : String) (rows : List Reservation) (b : BudgetViewItem)
    → str_eq run "" ≡ false
    → All IsLedgerRow rows
    → committed_usd (add_reservations run rows b) ≡ committed_usd b + reserved_usd run rows
unfolding add_reservations reserved_usd
add_reservations-committed run [] b named all = omega arith
add_reservations-committed run (r ∷ rows) b named all = ground (
  arith,
  add_reservations-committed run rows (record b { reserved_usd = b.reserved_usd + r.amount_usd })
      named all.1,
  add_reservations-committed run rows b named all.1,
  named,
  all.0,
)

add_usage-available :
    (u : UsageRecord) (b : BudgetViewItem) → (add_usage u b).available_usd ≡ b.available_usd
add_usage-available u b = rw (agent u.task_id) (ground arith)
  where
    agent :
        (t : Option String)
        → (add_agent_cost t u.amount_usd (add_amount u b)).available_usd
          ≡ (add_amount u b).available_usd
    agent none = refl
    agent (some t) = ground arith

add_usages-available :
    (run : String) (rows : List UsageRecord) (b : BudgetViewItem)
    → (add_usages run rows b).available_usd ≡ b.available_usd
unfolding add_usages
add_usages-available run [] b = refl
add_usages-available run (u ∷ rows) b =
    ground (arith, add_usages-available run rows (counted run u b), add_usage-available u b)

add_reservations-available :
    (run : String) (rows : List Reservation) (b : BudgetViewItem)
    → (add_reservations run rows b).available_usd ≡ b.available_usd
unfolding add_reservations
add_reservations-available run [] b = refl
add_reservations-available run (r ∷ rows) b = ground (
  arith,
  add_reservations-available run rows (record b { reserved_usd = b.reserved_usd + r.amount_usd }),
  add_reservations-available run rows b,
)

shown-available :
    (limit : Option ℕ) (b : BudgetViewItem) (actual estimated held : ℕ)
    → committed_usd b ≡ actual + estimated + held
    → b.available_usd ≡ none
    → (with_limit limit b).available_usd ≡ or_nothing (available limit actual estimated held)
shown-available none b actual estimated held committed fresh = fresh
shown-available (some l) b actual estimated held committed fresh = grind (int_laws, committed)

-- For a run with an identity, when every usage and reservation of the session names its run and no
-- reservation has the status `active`, applying the rows of the session shows exactly the amount
-- that the ledger's snapshot of the run has available, or zero where that is negative, and none where the run has
-- no limit.
pub shown_available-snapshot :
    (db : Tables) (run : CurrentRun) (p : Projection)
    → str_eq run.run_id "" ≡ false
    → All NamesRun db.usage_records
    → All IsLedgerRow db.reservations
    → (apply_budget_snapshot
        (some run)
        db.usage_records
        db.reservations
        p).budget_item.available_usd
      ≡ or_nothing (snapshot_of db run.run_id run.budget_limit_usd).available_usd
unfolding apply_budget_snapshot budget_view
shown_available-snapshot db run p named usage rows =
    let used = add_usages run.run_id db.usage_records (empty_budget run.budget_limit_usd) in
    shown-available run.budget_limit_usd (add_reservations run.run_id db.reservations used) _ _ _
      (omega (
        arith,
        add_reservations-committed run.run_id db.reservations used named rows,
        add_usages-committed run.run_id db.usage_records (empty_budget run.budget_limit_usd) named
            usage,
      ))
      (rw (add_reservations-available run.run_id db.reservations used)
        (add_usages-available run.run_id db.usage_records (empty_budget run.budget_limit_usd)))
