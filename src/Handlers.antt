-- ===== src/Handlers.antt =====
-- handlers.rs: what the daemon answers.
pub mod Trace
pub mod Related
pub mod Explore
pub mod Snippets
pub mod Context
