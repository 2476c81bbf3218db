-- ===== src/Routing/Assignment/Funding.antt =====
-- The plan of a batch fits what the run has left beside the allowance for the lead.
use skail.Prelude.{
  ℕ, ◌+◌, ◌≤◌, String, ◌≡◌, refl, sym, subst, ◌∙◌, ap, true, ◌&&◌, not, Option, none, some, List,
  [], ◌∷◌, ◌++◌, arith, Result, ok, returns_both, raise_if-passed, Bool-cases, inl, inr, ◌⊎◌,
  sum_where,
}
use skail.Prelude.Int.{
  ℤ, pos, pos_part, neg_part, ◌+ℤ◌, ◌-ℤ◌, ◌≤ℤ◌, +ℤ_parts, -ℤ_parts, eq_of_parts, int_laws,
}
use skail.Routing.Budget.Tables.{Tables, BudgetSnapshot, snapshot_of, task_committed_usd}
use skail.Routing.Budget.Rows.{sum_where-append, committed, spent-split}
use skail.Routing.Selector.Exclusion.{is_none}
use skail.Routing.Selector.Choice.{RouteSelection, RouteFailure, Route, select_model}
use skail.Routing.Selector.Guarantees.{selected_cost}
use skail.Routing.Assignment.Tables.{
  AssignmentRequest, RoutingSnapshot, AssignError, batch_inputs_changed, from_selector,
}
use skail.Routing.Assignment.Persisting.{cost_or_zero}
use skail.Routing.Assignment.Service.{min_ℤ, task_narrowed, allows_unpriced_manual, bound_by}
use skail.Routing.Assignment.Batch.{
  Selected, Plan, initial_plan, minus_allowance, defer, select, add_route, plan_one, plan_all,
  charge,
}
use skail.Routing.Assignment.Traces.{from_selector-ok}

abbrev pub planned_cost : List Selected → ℕ
planned_cost = sum_where (λ x. cost_or_zero x.selection.candidate.estimated_cost_usd) (λ x. true)

-- What remains is what there was at the start less the planned costs, and it is not overdrawn.
pub record IsFunded (start : ℤ) (plan : Plan) : Type 0 where
  pub left : ℤ
  pub remains : plan.remaining ≡ some left
  pub spent : left +ℤ pos (planned_cost plan.selections) ≡ start
  pub fits : (plan.selections ≡ []) ⊎ (pos (planned_cost plan.selections) ≤ℤ start)

min_ℤ-below : (a b : ℤ) → min_ℤ a b ≤ℤ a
min_ℤ-below a b = ground arith

narrowed_below :
    (db : Tables) (q : AssignmentRequest) (limit : Option ℕ) (run : ℤ)
    → (z : ℤ) × (task_narrowed db q 0 limit (some run) ≡ some z) × (z ≤ℤ run)
narrowed_below db q none run = (run, refl, omega arith)
narrowed_below db q (some l) run =
    (_, refl, min_ℤ-below run (pos l -ℤ pos (task_committed_usd db q.run_id q.task_id) +ℤ pos 0))

still_spent :
    (left start : ℤ) (planned cost total : ℕ)
    → left +ℤ pos planned ≡ start
    → total ≡ planned + cost
    → left -ℤ pos cost +ℤ pos total ≡ start
still_spent left start planned cost total h e = eq_of_parts _ start (
    omega (
      arith,
      +ℤ_parts left (pos planned),
      +ℤ_parts (left -ℤ pos cost) (pos total),
      -ℤ_parts left (pos cost),
      ap pos_part h,
      ap neg_part h,
      e,
    ))

still_fits :
    (left start : ℤ) (planned cost total : ℕ)
    → left +ℤ pos planned ≡ start
    → total ≡ planned + cost
    → pos cost ≤ℤ left
    → pos total ≤ℤ start
still_fits left start planned cost total h e fits =
    omega (arith, +ℤ_parts left (pos planned), ap pos_part h, ap neg_part h, e, fits)

planned_step :
    (xs : List Selected) (x : Selected)
    → planned_cost (xs ++ x ∷ [])
      ≡ planned_cost xs + cost_or_zero x.selection.candidate.estimated_cost_usd
planned_step xs x = omega (
  arith,
  sum_where-append (λ (x : Selected). cost_or_zero x.selection.candidate.estimated_cost_usd)
      (λ x. true) xs (x ∷ []),
)

same_plan : {x y : Plan} → ◌≡◌ {A = Result AssignError Plan} (ok x) (ok y) → x ≡ y
same_plan h = ground (arith, h)

select-IsFunded :
    (start : ℤ) (q : AssignmentRequest) (s : RouteSelection) (health : String) (plan next : Plan)
    (f : IsFunded start plan) (cost : ℕ)
    → s.candidate.estimated_cost_usd ≡ some cost
    → pos cost ≤ℤ f.left
    → select q s health plan ≡ ok next
    → IsFunded start next
select-IsFunded start q s health plan next f cost e fits h =
    let x : Selected = record { request = q; selection = s; health_revision = health } in
    let total =
      planned_step plan.selections x ∙ ap (λ o. planned_cost plan.selections + cost_or_zero o) e in
    let (remaining, h1, charged) =
      returns_both _ (charge plan.remaining s.candidate.estimated_cost_usd) h in
    subst (IsFunded start) (same_plan h1) (record {
      left = f.left -ℤ pos cost;
      remains =
          charged_left f.left cost remaining (charged_as _ _ _ _ remaining f.remains e charged);
      spent = still_spent f.left start (planned_cost plan.selections) cost _ f.spent total;
      fits = inr (still_fits f.left start (planned_cost plan.selections) cost _ f.spent total fits);
    })
  where
    charged_as :
        (a b : Option ℤ) (c d : Option ℕ) (z : Option ℤ)
        → a ≡ b
        → c ≡ d
        → charge a c ≡ ok z
        → charge b d ≡ ok z
    charged_as a b c d z k l h =
        subst (λ o. charge o d ≡ ok z) k (subst (λ o. charge a o ≡ ok z) l h)

    charged_left :
        (left : ℤ) (cost : ℕ) (z : Option ℤ)
        → charge (some left) (some cost) ≡ ok z
        → z ≡ some (left -ℤ pos cost)
    charged_left left cost z h = ground (arith, h)

defer-IsFunded :
    (start : ℤ) (q : AssignmentRequest) (f : RouteFailure) (plan next : Plan)
    → IsFunded start plan
    → ◌≡◌ {A = Result AssignError Plan} (ok (defer q f plan)) (ok next)
    → IsFunded start next
defer-IsFunded start q f plan next v h =
    subst (IsFunded start) (same_plan h)
      (record { left = v.left; remains = v.remains; spent = v.spent; fits = v.fits })

plan_one-IsFunded :
    (db : Tables) (s : BudgetSnapshot) (start : ℤ) (q : AssignmentRequest) (r : RoutingSnapshot)
    (plan next : Plan)
    → IsFunded start plan
    → plan_one db s q r plan ≡ ok next
    → IsFunded start next
unfolding plan_one
plan_one-IsFunded db s start q r plan next f h =
    let (z, budget, below) = narrowed_below db q q.task_limit_usd f.left in
    let (_, h1) = raise_if-passed _ batch_inputs_changed _ h in
    let (route, h2, e) =
      returns_both _
        (from_selector (
          select_model r.candidates q.requirements
            (task_narrowed db q 0 q.task_limit_usd plan.remaining) q.manual_model))
        h1 in
    added route h2 z
      (ap (λ b. select_model r.candidates q.requirements b q.manual_model)
          (sym budget ∙ ap (task_narrowed db q 0 q.task_limit_usd) (sym f.remains))
        ∙ from_selector-ok _ route e)
      below
  where
    added :
        (route : Route)
        → add_route s q r.health_revision route plan ≡ ok next
        → (z : ℤ) → select_model r.candidates q.requirements (some z) q.manual_model ≡ ok route
        → z ≤ℤ f.left
        → IsFunded start next
    added (Route.no_qualified_model failure) g z e below =
        defer-IsFunded start q failure plan next f g
    added (Route.selected sel) g z e below =
        let (cost, known, fits) =
          selected_cost r.candidates q.requirements z q.manual_model sel e in
        elim (Bool-cases
          (is_none sel.candidate.estimated_cost_usd && not (allows_unpriced_manual q s))) [
            | inl unpriced ↦
                defer-IsFunded start q (bound_by "price_unavailable_for_reservation") plan next f
                  (rw unpriced at g)
            | inr priced ↦
                select-IsFunded start q sel r.health_revision plan next f cost known
                  (omega (arith, fits, below)) (rw priced at g)
          ]

plan_all-IsFunded :
    (db : Tables) (s : BudgetSnapshot) (candidates : AssignmentRequest → RoutingSnapshot)
    (start : ℤ) (requests : List AssignmentRequest) (plan last : Plan)
    → IsFunded start plan
    → plan_all db s candidates requests plan ≡ ok last
    → IsFunded start last
unfolding plan_all
plan_all-IsFunded db s candidates start [] plan last f h = subst (IsFunded start) (same_plan h) f
plan_all-IsFunded db s candidates start (q ∷ requests) plan last f h =
    let (next, h1, e) = returns_both _ (plan_one db s q (candidates q) plan) h in
    plan_all-IsFunded db s candidates start requests next last
      (plan_one-IsFunded db s start q (candidates q) plan next f e) h1

initial-IsFunded :
    (s : BudgetSnapshot) (allowance : ℕ) (free : ℤ)
    → s.available_usd ≡ some free
    → IsFunded (free -ℤ pos allowance) (initial_plan s allowance)
initial-IsFunded s allowance free e = record {
  left = free -ℤ pos allowance;
  remains = ap (λ o. minus_allowance o allowance) e;
  spent = eq_of_parts _ _ (omega (arith, +ℤ_parts (free -ℤ pos allowance) (pos 0)));
  fits = inl refl;
}

-- For a run with a limit, what a batch plans to spend, together with the allowance for the lead and
-- all that the run has spent and reserved, fits the limit, unless nothing is planned.
pub plan_all-fits :
    (db : Tables) (run_id : String) (l allowance : ℕ)
    (candidates : AssignmentRequest → RoutingSnapshot) (requests : List AssignmentRequest)
    (plan : Plan)
    → plan_all db
        (snapshot_of db run_id (some l))
        candidates
        requests
        (initial_plan (snapshot_of db run_id (some l)) allowance)
      ≡ ok plan
    → (plan.selections ≡ []) ⊎ (planned_cost plan.selections + allowance + committed run_id db ≤ l)
plan_all-fits db run_id l allowance candidates requests plan h =
    let s = snapshot_of db run_id (some l) in
    elim (plan_all-IsFunded db s candidates _ requests _ plan (initial-IsFunded s allowance _ refl)
      h).fits [
        | inl none_planned ↦ inl none_planned
        | inr fits ↦ inr (omega (int_laws, fits, spent-split run_id db.usage_records))
      ]
