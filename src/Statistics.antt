-- ===== src/Statistics.antt =====
-- statistics/: what is known of the players of a table.
pub mod Player
pub mod Table
pub mod Flow
