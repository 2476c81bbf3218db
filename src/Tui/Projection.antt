-- ===== src/Tui/Projection.antt =====
-- src/skail/tui/projection.py: the state of `TuiProjection` that its own methods change.
--
-- `apply_snapshot` and `apply_event` are left out, as are titles, contents and times of transcript
-- items, and the rendering of the meter. Amounts are in the ledger's unit.
pub mod State
pub mod Transcripts
pub mod Queues
pub mod Budget
pub mod Agreement
pub mod Children
pub mod Slots
