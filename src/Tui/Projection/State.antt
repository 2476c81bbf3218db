-- ===== src/Tui/Projection/State.antt =====
-- The fields of `TuiProjection` that the methods modelled here read or change.
use skail.Prelude.{ℕ, String, Bool, false, Option, none, List, []}
use skail.Prelude.Dict.{Dict}

pub data Role : Type 0 where
  lead user task tool error approval system question : Role

pub record TranscriptItem : Type 0 where
  pub id : String
  pub role : Role
  pub collapsed : Bool
  pub can_collapse : Bool

-- `per_agent_costs` is keyed by task.
pub record BudgetViewItem : Type 0 where
  pub hard_limit_usd : Option ℕ
  pub authoritative_actual_usd : ℕ
  pub estimated_actual_usd : ℕ
  pub token_derived_actual_usd : ℕ
  pub conservative_estimate_usd : ℕ
  pub reserved_usd : ℕ
  pub unknown_cost_usd : ℕ
  pub available_usd : Option ℕ
  pub warning_state : Bool
  pub per_agent_costs : Dict ℕ

-- `cost`, which stays zero, is left out.
pub record ChildView : Type 0 where
  pub id : String
  pub slot : ℕ
  pub status : String
  pub task : String
  pub model : String
  pub workspace_lock : String
  pub last_event : String

-- `lead_model`, `session_cost_usd` and `budget_limit_usd` are fields of `footer_data`.
pub record Projection : Type 0 where
  pub transcript_items : List TranscriptItem
  pub seen_transcript_ids : List String
  pub unread : ℕ
  pub receipts : List String
  pub queue : List String
  pub child_slots : Dict ℕ
  pub children : Dict ChildView
  pub attempt_models : Dict String
  pub future_model : String
  pub lead_model : String
  pub budget_item : BudgetViewItem
  pub session_cost_usd : ℕ
  pub budget_limit_usd : Option ℕ

abbrev pub empty_budget : Option ℕ → BudgetViewItem
empty_budget limit = record {
  hard_limit_usd = limit;
  authoritative_actual_usd = 0;
  estimated_actual_usd = 0;
  token_derived_actual_usd = 0;
  conservative_estimate_usd = 0;
  reserved_usd = 0;
  unknown_cost_usd = 0;
  available_usd = none;
  warning_state = false;
  per_agent_costs = [];
}

-- `TuiProjection.__init__`
abbrev pub projection : Projection
projection = record {
  transcript_items = [];
  seen_transcript_ids = [];
  unread = 0;
  receipts = [];
  queue = [];
  child_slots = [];
  children = [];
  attempt_models = [];
  future_model = "auto";
  lead_model = "auto";
  budget_item = empty_budget none;
  session_cost_usd = 0;
  budget_limit_usd = none;
}
