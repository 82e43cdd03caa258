-- ===== src/Db.antt =====
-- The database: db/. What is sent to SQLite, as texts.
pub mod Insertor
pub mod Templates
pub mod Saving
pub mod Selector
