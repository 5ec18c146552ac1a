-- ===== src/Lib.antt =====
-- xgraph keeps a graph of a worktree's code: extractors find nodes and references in each file, the
-- owner turns them into updates, the store keeps them, and in-memory indexes answer the questions
-- that a daemon serves over a socket. This library models the parts that compute the answers.
--
-- Which file is about which code:
--   Prelude, Map, Text: `Vec`, `HashMap` and `str` of the standard library, as lists, association
--     lists and lists of bytes.
--   Cozo/Facts: the records of src/extract.rs and src/cozo.rs, and `FileUpdate::from_extracted`.
--   Cozo/NodeIds: `active_node_id` of src/cozo.rs.
--   Indexes: src/indexes.rs. State holds `HotIndexes`; Edges, Symbols and Search its tables and
--     `search`; Update `apply_file_update` and `remove_path`; Reload `reload_from_cozo`.
--   Handlers: src/handlers.rs. Trace is `build_trace` with `reconstruct_path`, Related the pages,
--     summaries and members of related nodes, Snippets `lookup_span_and_snippet`, Explore
--     `build_explore`, Context `build_context`.
--   Imports: src/import_resolver.rs. Pattern is `match_pattern` and `substitute_target`, Alias
--     `TsAliasResolver::resolve` and `normalize_to_string`, Jsonc `strip_jsonc`, Python
--     `PythonImportResolver::resolve`.
--   Manifest: src/manifest.rs. Hash: `from_hex` and `Display` of src/hash.rs.
--   Resolve: src/resolve.rs. Language: src/language.rs, with its plugins as parameters.
--   Scanner: `detect_language` of src/scanner.rs. Watcher: the debounce worker of src/watcher.rs.
--     Ignore: the decision of src/ignore.rs over nested ignore files.
--   Cozo/Writer: the queue and `writer_loop` of src/cozo.rs, with what its actions do in Perform.
--   Cozo/Store: the relations of src/cozo.rs, `apply_file_updates_batch` and `truncate_graph`.
--   Owner: src/owner.rs. Paths, Symbols and Edges are `build_symbol_table` and `resolve_edges`; Status
--     is src/daemon_status.rs; Rewrite is `rewrite_imports`, Framework the edges of the framework
--     passes; Changes is `WorktreeOwner` with its operations on a path, and
--     Changes/Passes those on the whole worktree.
--   Tests: each theorem at a concrete input.
--
-- An update flows from an `ExtractedFile` through `from_extracted` to `apply_file_update`, which
-- drops what the path had before and installs nodes, symbols, trigrams and edges; the handlers only
-- read. The owner shows each update in the indexes and sends it to the writer, which commits
-- batches to the store; the watcher and the scanner tell the owner which files there are.
--
-- Bounds and fuel: strings are bytes, numbers are natural numbers, and casts to 32 bits wrap
-- around. The loop of `build_trace` has one round of fuel more than there are call edges, and a
-- node enters the queue at most once, so it never runs out. A run of the writer is given by the
-- numbers of messages that its rounds find, and one round for each message empties the queue. Every
-- other recursion is structural or on smaller numbers.
--
-- Parameters: the answer of the store to a query (Indexes/Reload), what a lookup reads from the store
-- and the files, with the daemon's status (`Reads` in Handlers/Snippets; Handlers/Context is stated for
-- any lookup), plugins (Language), the engine's refusal of a batch and its answers to a truncation, by
-- the caller (Cozo/Store), the patterns of an ignore file (Ignore), the ignore matcher and the test for
-- a directory (Watcher), and the files, the hash function, `from_utf8_lossy`, the extractors, what is
-- known of the import aliases and the framework resolvers (`World` in Owner/Changes). The caller of a
-- truncation is numbered by the messages that were sent before it.
--
-- Not modelled: locks and threads but for the queue of the writer and the inputs of the watcher, so
-- each other method runs alone; sockets, JSON text and the file system; the Cozo engine itself;
-- src/query.rs, src/daemon.rs and the MCP protocol, which need the parts here first; the
-- extractors, which walk trees of external grammars; terminal output. `list_files` of
-- src/indexes.rs is left out.
mod Prelude
pub mod Map
pub mod Text
pub mod Cozo
pub mod Indexes
pub mod Handlers
pub mod Imports
pub mod Manifest
pub mod Hash
pub mod Resolve
pub mod Language
pub mod Scanner
pub mod Ignore
pub mod Watcher
pub mod Owner
mod Tests
