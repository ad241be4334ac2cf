-- ===== src/Tui.antt =====
-- src/bin/aggregated_depth_tui.rs: the tabs of the terminal display, and the ladders that it draws.
pub mod Tabs
pub mod Ladder
pub mod Levels
