-- ===== src/Tui/Projection/Budget.antt =====
-- `apply_budget_snapshot`: the budget of the current run, from the rows of a session.
use skail.Prelude.{
  ℕ, ◌+◌, ◌-◌, ◌*◌, String, Bool, true, ◌&&◌, ◌||◌, Option, none, some, List, [], ◌∷◌, str_eq,
  if◌then◌else◌, leb, ltb, sum_where,
}
use skail.Prelude.Dict.{put, count_of}
use skail.Routing.Budget.Tables.{
  Reservation, UsageRecord, authoritative_actual, token_derived_estimate, conservative_estimate,
  unknown, authority_eq, reserved, active, status_eq,
}
use skail.Tui.Projection.State.{BudgetViewItem, Projection, empty_budget}

-- `snapshot.runs[-1]`
pub record CurrentRun : Type 0 where
  pub run_id : String
  pub budget_limit_usd : Option ℕ

abbrev run_id_of : Option CurrentRun → String
run_id_of none = ""
run_id_of (some r) = r.run_id

abbrev limit_of : Option CurrentRun → Option ℕ
limit_of none = none
limit_of (some r) = r.budget_limit_usd

-- `belongs_to_current_run`
abbrev pub belongs_to_current_run : String → String → Bool
belongs_to_current_run current item = str_eq current "" || (str_eq item "" || str_eq item current)

-- the branches on the authority of a usage
abbrev pub add_amount : UsageRecord → BudgetViewItem → BudgetViewItem
add_amount u b =
    if u.authoritative || authority_eq u.authority authoritative_actual
    then record b { authoritative_actual_usd = b.authoritative_actual_usd + u.amount_usd }
    else if authority_eq u.authority token_derived_estimate
    then record b {
      token_derived_actual_usd = b.token_derived_actual_usd + u.amount_usd;
      estimated_actual_usd = b.estimated_actual_usd + u.amount_usd;
    }
    else if authority_eq u.authority conservative_estimate
    then record b {
      conservative_estimate_usd = b.conservative_estimate_usd + u.amount_usd;
      estimated_actual_usd = b.estimated_actual_usd + u.amount_usd;
    }
    else if authority_eq u.authority unknown
    then record b { unknown_cost_usd = b.unknown_cost_usd + u.amount_usd }
    else record b { estimated_actual_usd = b.estimated_actual_usd + u.amount_usd }

-- `if usage.task_id`
abbrev pub add_agent_cost : Option String → ℕ → BudgetViewItem → BudgetViewItem
add_agent_cost none amount b = b
add_agent_cost (some t) amount b = if str_eq t "" then b else record b {
  per_agent_costs = put b.per_agent_costs t (count_of b.per_agent_costs t + amount);
}

abbrev pub add_usage : UsageRecord → BudgetViewItem → BudgetViewItem
add_usage u b = add_agent_cost u.task_id u.amount_usd (add_amount u b)

unfoldable pub add_usages : String → List UsageRecord → BudgetViewItem → BudgetViewItem
add_usages current [] b = b
add_usages current (u ∷ rows) b =
    add_usages current rows (if belongs_to_current_run current u.run_id then add_usage u b else b)

abbrev is_counted : String → Reservation → Bool
is_counted current r =
    belongs_to_current_run current r.run_id
    && (status_eq r.status active || status_eq r.status reserved)

unfoldable pub add_reservations : String → List Reservation → BudgetViewItem → BudgetViewItem
add_reservations current [] b = b
add_reservations current (r ∷ rows) b =
    add_reservations current rows (
      if is_counted current r then record b { reserved_usd = b.reserved_usd + r.amount_usd } else b)

abbrev pub committed_usd : BudgetViewItem → ℕ
committed_usd b =
    b.authoritative_actual_usd + b.estimated_actual_usd + b.unknown_cost_usd + b.reserved_usd

-- `max(0, hard_limit - committed)`, and a warning from 80 % of a positive limit on: the quotient is
-- compared without the rounding of `Decimal` division
abbrev pub with_limit : Option ℕ → BudgetViewItem → BudgetViewItem
with_limit none b = b
with_limit (some l) b = record b {
  available_usd = some (l - committed_usd b);
  warning_state = ltb 0 l && leb (l * 80) (committed_usd b * 100);
}

unfoldable pub budget_view :
    Option CurrentRun → List UsageRecord → List Reservation → BudgetViewItem
budget_view run usage reservations =
    let limit = limit_of run in
    let current = run_id_of run in
    with_limit limit
      (add_reservations current reservations (add_usages current usage (empty_budget limit)))

unfoldable pub total_usd : List UsageRecord → ℕ
total_usd = sum_where (λ u. u.amount_usd) (λ u. true)

-- `apply_budget_snapshot`
unfoldable pub apply_budget_snapshot :
    Option CurrentRun → List UsageRecord → List Reservation → Projection → Projection
apply_budget_snapshot run usage reservations p = record p {
  budget_item = budget_view run usage reservations;
  session_cost_usd = total_usd usage;
  budget_limit_usd = limit_of run;
}
