-- ===== src/Routing/Selector.antt =====
-- src/skail/routing/requirements.py and src/skail/routing/selector.py: what an assignment requires
-- of a model, and the choice of one.
pub mod Requirements
pub mod Exclusion
pub mod Choice
pub mod Leads
pub mod Selections
pub mod Conditions
pub mod Qualified
pub mod Ranked
pub mod Preferences
pub mod BestModel
pub mod BestLead
pub mod Guarantees
pub mod Floors
