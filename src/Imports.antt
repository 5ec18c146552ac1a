-- ===== src/Imports.antt =====
-- import_resolver.rs: from import strings to module paths.
pub mod Pattern
pub mod Jsonc
pub mod Python
pub mod Alias
