-- ===== src/Tests/Updates.antt =====
-- Updates and removals in the sample worktree.
use xgraph.Prelude.{
  ◌≡◌, ◌≢◌, refl, List, [], ◌∷◌, none, some, true, false, not, ◌&&◌, ◌||◌, arith, contains,
  if◌then◌else◌, ◌==◌, ℕ,
}
use xgraph.Text.{text, text_key}
use xgraph.Indexes.State.{SymbolKey, symbol_key_key, get_node, nodes_in_file, new}
use xgraph.Indexes.Edges.{callees_of, callers_of, remove_edges_for_node}
use xgraph.Indexes.Edges.Symmetric.{remove_edges_for_node_lem}
use xgraph.Indexes.Symbols.{lookup_symbol, remove_symbol_references}
use xgraph.Indexes.Symbols.Removal.{remove_symbol_references_lem}
use xgraph.Indexes.Update.{remove_path, apply_file_update, ids_of}
use xgraph.Indexes.Update.Install.{hot_edge, declares, declared}
use xgraph.Indexes.Update.Invariant.{WellFormed, remove_path-WellFormed}
use xgraph.Indexes.Update.Preserved.{apply_file_update-WellFormed}
use xgraph.Indexes.Update.Replace.{
  apply_file_update-calls, apply_file_update-lookup, apply_file_update-get, apply_file_update-files,
  remove_path-calls,
}
use xgraph.Indexes.Update.Files.{
  FilesMatch, Unshared, apply_file_update-FilesMatch, shared_content_lost,
}
use xgraph.Indexes.Reload.{rows, failed, str, other, reload_from_cozo, reload_from_cozo-WellFormed}
use xgraph.Cozo.NodeIds.Injective.{active_node_id_inj}
use xgraph.Tests.Samples.{
  one_file, two_files, one_file-WellFormed, two_files-WellFormed, one_file_names, run,
  parse_line_id, main_id, reader, entry, copy,
}

abbrev key : SymbolKey
key = record { name = text "parse_line"; kind = text "function" }

apply_file_update-WellFormed_example : WellFormed (apply_file_update one_file entry)
apply_file_update-WellFormed_example =
    apply_file_update-WellFormed one_file entry (omega (arith, one_file_names)) one_file-WellFormed

remove_path-WellFormed_example : WellFormed (remove_path two_files (text "reader.rs"))
remove_path-WellFormed_example =
    remove_path-WellFormed two_files (text "reader.rs") two_files-WellFormed

apply_file_update-calls_example :
    contains (callees_of (apply_file_update one_file entry) main_id) parse_line_id ≡ (
      hot_edge entry.edges main_id parse_line_id
      || (contains (callees_of one_file main_id) parse_line_id
          && (not (contains (nodes_in_file one_file entry.path) main_id)
              && not (contains (nodes_in_file one_file entry.path) parse_line_id))))
apply_file_update-calls_example =
    apply_file_update-calls one_file entry main_id parse_line_id one_file-WellFormed.edges

apply_file_update-lookup_example :
    contains (lookup_symbol (apply_file_update one_file entry) key) parse_line_id ≡ (
      declares entry.content_hash entry.nodes key parse_line_id
      || (contains (lookup_symbol one_file key) parse_line_id
          && not (contains (nodes_in_file one_file entry.path) parse_line_id)))
apply_file_update-lookup_example = apply_file_update-lookup one_file entry key parse_line_id

apply_file_update-get_example :
    get_node (apply_file_update one_file entry) main_id
    ≡ elim (declared entry.content_hash entry.path entry.nodes main_id) [
      | some r ↦ some r
      | none ↦
          if contains (nodes_in_file one_file entry.path) main_id
          then none
          else get_node one_file main_id
    ]
apply_file_update-get_example = apply_file_update-get one_file entry main_id

apply_file_update-files_example :
    nodes_in_file (apply_file_update one_file entry) (text "reader.rs") ≡ (
      if entry.path == text "reader.rs"
      then ids_of entry.content_hash entry.nodes
      else nodes_in_file one_file (text "reader.rs"))
apply_file_update-files_example = apply_file_update-files one_file entry (text "reader.rs")

remove_path-calls_example :
    contains (callees_of (remove_path two_files (text "reader.rs")) main_id) parse_line_id ≡ (
      contains (callees_of two_files main_id) parse_line_id
      && (not (contains (nodes_in_file two_files (text "reader.rs")) main_id)
          && not (contains (nodes_in_file two_files (text "reader.rs")) parse_line_id)))
remove_path-calls_example =
    remove_path-calls two_files (text "reader.rs") main_id parse_line_id two_files-WellFormed.edges

remove_edges_for_node_lem_example :
    (contains (callees_of (remove_edges_for_node two_files main_id) main_id) parse_line_id ≡ (
      if main_id == main_id
      then false
      else if parse_line_id == main_id
      then false
      else contains (callees_of two_files main_id) parse_line_id))
    × (contains (callers_of (remove_edges_for_node two_files main_id) parse_line_id) main_id ≡ (
        if main_id == main_id
        then false
        else if parse_line_id == main_id
        then false
        else contains (callees_of two_files main_id) parse_line_id))
remove_edges_for_node_lem_example =
    remove_edges_for_node_lem two_files main_id main_id parse_line_id two_files-WellFormed.edges

remove_symbol_references_lem_example :
    contains (lookup_symbol (remove_symbol_references two_files parse_line_id) key) parse_line_id
    ≡ (if parse_line_id == parse_line_id
        then false
        else contains (lookup_symbol two_files key) parse_line_id)
remove_symbol_references_lem_example =
    remove_symbol_references_lem two_files parse_line_id key parse_line_id

reload_from_cozo-WellFormed_example :
    WellFormed (reload_from_cozo two_files (rows ((str main_id ∷ other ∷ []) ∷ [])) (failed [])).0
reload_from_cozo-WellFormed_example =
    reload_from_cozo-WellFormed two_files (rows ((str main_id ∷ other ∷ []) ∷ [])) (failed [])
      (omega arith)

active_node_id_inj_example : ◌≡◌ {A = List ℕ} (7 ∷ 200 ∷ []) (7 ∷ 200 ∷ []) × ◌≡◌ {A = ℕ} 1907 1907
active_node_id_inj_example =
    active_node_id_inj (7 ∷ 200 ∷ []) (7 ∷ 200 ∷ []) 1907 1907 (omega arith) (omega arith) refl refl

new-FilesMatch : FilesMatch new
unfolding run nodes_in_file
new-FilesMatch = record { recorded = λ p x m. absurd (cc m) }

reader-Unshared : Unshared new reader
unfolding run nodes_in_file
reader-Unshared = record { apart = λ p x other m. refl }

apply_file_update-FilesMatch_example : FilesMatch (apply_file_update new reader)
apply_file_update-FilesMatch_example =
    apply_file_update-FilesMatch new reader reader-Unshared new-FilesMatch

paths_differ : reader.path ≢ copy.path
paths_differ e = cc e

listed_in_copy : contains (ids_of copy.content_hash copy.nodes) parse_line_id ≡ true
unfolding run
listed_in_copy = refl

shared_content_lost_example :
    (contains
        (nodes_in_file
          (remove_path (apply_file_update (apply_file_update new reader) copy) reader.path)
          copy.path)
        parse_line_id
      ≡ true)
    × (get_node
          (remove_path (apply_file_update (apply_file_update new reader) copy) reader.path)
          parse_line_id
        ≡ none)
shared_content_lost_example =
    shared_content_lost new reader copy parse_line_id refl refl paths_differ listed_in_copy
