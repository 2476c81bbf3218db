-- ===== src/Tui.antt =====
-- src/skail/tui: the projection behind the terminal interface.
pub mod Projection
mod Tests
