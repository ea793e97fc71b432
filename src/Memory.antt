-- ===== src/Memory.antt =====
-- memory/memory_system.py: entries in three layers, with times to live, in a table of SQLite.
pub mod Entries
pub mod Store
pub mod VectorIndex
pub mod Search
pub mod Rows
pub mod Retrieved
pub mod Distinct
pub mod Expiry
pub mod Unindexed
mod Tests
