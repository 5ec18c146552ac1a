-- ===== src/Owner.antt =====
-- owner.rs: what the owner of a worktree makes of extracted files.
pub mod Paths
pub mod Symbols
pub mod Edges
pub mod Rewrite
pub mod Framework
pub mod Status
pub mod Changes
