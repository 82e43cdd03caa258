-- ===== src/Tests.antt =====
-- The theorems at concrete values.
pub mod Samples
pub mod Threads
pub mod Texts
pub mod Entities
pub mod History
pub mod Hands
pub mod Tables
pub mod Files
pub mod Database
pub mod Loading
pub mod Program
pub mod Windows
