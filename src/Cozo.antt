-- ===== src/Cozo.antt =====
-- cozo.rs: the facts of a file as they are stored, and the identifiers of active nodes.
pub mod Facts
pub mod NodeIds
pub mod Writer
pub mod Store
