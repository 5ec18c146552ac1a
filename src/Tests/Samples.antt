-- ===== src/Tests/Samples.antt =====
-- A small worktree: two files, and the indexes after both were applied.
use Prim.Native.Nat.{◌^◌}
use xgraph.Prelude.{◌≡◌, refl, [], ◌∷◌, arith, ℕ, list_beq, push_new, retain, ◌≤◌, length, contains}
use xgraph.Text.{
  text, text_key, trigram_beq, windows, lower, to_ascii_lowercase, starts_with, str_contains,
}
use xgraph.Map
use xgraph.Map.Lists.{push_at, prune, drop_empty}
use xgraph.Cozo.Facts.{FileUpdate, NodeFact, EdgeFact, Span}
use xgraph.Cozo.NodeIds.{active_node_id, hex, hex_digit, decimal}
use xgraph.Indexes.State.{HotIndexes, NodeId, new, symbol_key_beq}
use xgraph.Indexes.Edges.{add_call_edge, drop_from, drop_listed, remove_edges_for_node}
use xgraph.Indexes.Symbols.{
  remove_symbol_references, drop_keys, drop_key, emptied, register_node_symbols, register_symbol,
  index_name_trigrams, post_windows, as_u32,
}
use xgraph.Indexes.Update.{
  install_node, install_nodes, node_record, ids_of, set_file, wire_edges, is_hot_traversal_edge,
  remove_all, remove_node_references, remove_path, apply_file_update,
}
use xgraph.Indexes.Update.Invariant.{WellFormed}
use xgraph.Indexes.Update.Preserved.{apply_file_update-WellFormed, new-WellFormed}

abbrev pub origin : Span
origin = record { start_byte = 0; end_byte = 0; start_row = 0; start_col = 0 }

abbrev pub parse_line : NodeFact
parse_line = record {
  local_node_id = 0;
  kind = text "function";
  name = text "parse_line";
  qname = text "reader::parse_line";
  span = origin;
}

abbrev pub main : NodeFact
main = record {
  local_node_id = 0;
  kind = text "function";
  name = text "main";
  qname = text "main";
  span = origin;
}

-- `active_node_id` of the two
abbrev pub parse_line_id : NodeId
parse_line_id = text "01:0"

abbrev pub main_id : NodeId
main_id = text "02:0"

abbrev pub call : EdgeFact
call = record {
  source_node_id = main_id;
  kind = text "calls";
  target_node_id = parse_line_id;
  provenance = text "resolver";
  confidence = 100;
}

abbrev pub reader : FileUpdate
reader = record {
  path = text "reader.rs";
  content_hash = 1 ∷ [];
  language = text "rust";
  parser_version = 1;
  mtime = 0;
  size = 10;
  generation = 1;
  diagnostics = [];
  nodes = parse_line ∷ [];
  refs = [];
  edges = [];
}

abbrev pub entry : FileUpdate
entry = record {
  path = text "main.rs";
  content_hash = 2 ∷ [];
  language = text "rust";
  parser_version = 1;
  mtime = 0;
  size = 10;
  generation = 1;
  diagnostics = [];
  nodes = main ∷ [];
  refs = [];
  edges = call ∷ [];
}

-- a copy of `reader.rs` under another path
abbrev pub copy : FileUpdate
copy = record reader { path = text "copy.rs" }

abbrev pub one_file : HotIndexes
one_file = apply_file_update new reader

abbrev pub two_files : HotIndexes
two_files = apply_file_update one_file entry

-- what a run of updates and lookups opens
unfoldable pub run : HotIndexes → HotIndexes
unfolding Map.get Map.insert Map.remove Map.find Map.put Map.without Map.iter Map.unique
    Map.retain_values Map.keep Map.map_values list_beq trigram_beq symbol_key_beq contains push_new
    retain windows lower to_ascii_lowercase starts_with str_contains active_node_id hex hex_digit
    decimal push_at prune drop_empty add_call_edge drop_from drop_listed remove_edges_for_node
    remove_symbol_references drop_keys drop_key emptied register_node_symbols register_symbol
    index_name_trigrams post_windows as_u32 install_node install_nodes node_record ids_of set_file
    wire_edges is_hot_traversal_edge remove_all remove_node_references remove_path apply_file_update
run idx = idx

pub one_file_names : length one_file.names ≡ 2
unfolding run
one_file_names = refl

pub two_files_names : length two_files.names ≡ 3
unfolding run
two_files_names = refl

room : (n : ℕ) → n ≤ 100 → n ≤ 2 ^ 32
room n h = omega arith

pub one_file-WellFormed : WellFormed one_file
one_file-WellFormed = apply_file_update-WellFormed new reader (room 2 (omega arith)) new-WellFormed

pub two_files-WellFormed : WellFormed two_files
two_files-WellFormed =
    apply_file_update-WellFormed one_file entry (omega (arith, one_file_names)) one_file-WellFormed
