-- ===== src/Sessions.antt =====
-- src/skail/sessions: the recovery of a session whose process has ended.
pub mod Recovery
mod Tests
