-- ===== src/Gui.antt =====
-- gui/: what the windows over a table compute.
pub mod Position
pub mod TableWatcher
pub mod Coordinates
pub mod TableService
