-- ===== src/Indexes.antt =====
-- indexes.rs: the in-memory indexes that the daemon answers queries from.
pub mod State
pub mod Edges
pub mod Symbols
pub mod Search
pub mod Update
pub mod Reload
