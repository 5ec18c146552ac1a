-- ===== src/Owner/Changes/Passes.antt =====
-- owner.rs: the passes over the worktree. What `scan` finds is an argument, and so is each state of the
-- store that is read; the phases' timings and the progress bar are left out.
use xgraph.Prelude.{
  ℕ, ◌+◌, Option, none, some, List, [], ◌∷◌, ◌++◌, map, if◌then◌else◌, length, contains, nat_key,
  list_key,
}
use xgraph.Text.{Text, text_key}
use xgraph.Cozo.Store.{Store, Truncation}
use xgraph.Cozo.Writer.{flush, truncate}
use xgraph.Indexes.State.{clear}
use xgraph.Imports.Alias.{resolve, normal, root_dir}
use xgraph.Imports.Python
use xgraph.Imports.Python.{RelPath}
use xgraph.Owner.Rewrite.{rewrite_imports}
use xgraph.Scanner.{ScannedFile}
use xgraph.Owner.Symbols.{PreparedFile, SymbolTable, build_symbol_table}
use xgraph.Owner.Status.{mark_reconcile_done, mark_reconcile_running}
use xgraph.Owner.Changes.{
  World, io, panicked, apply, Outcome, ok, err, WorktreeOwner, Step, and_then, send, relative_to,
  prepare_file_from_bytes, submit_prepared, process_delete,
}

pub record IndexSummary : Type 0 where
  pub files_scanned : ℕ
  pub files_indexed : ℕ
  pub nodes_created : ℕ
  pub edges_created : ℕ

-- `rewrite_imports` on the references of a prepared file
unfoldable pub rewritten : World → PreparedFile → Outcome (Option PreparedFile)
unfolding rewrite_imports resolve
rewritten w prep =
    let ts = λ (import_ : Text).
      resolve w.ts_resolver import_ (map normal prep.relative)
        (root_dir ∷ map normal w.worktree_root) in
    let py = λ (module_ : Text). Python.resolve w.py_resolver prep.relative module_ in
    elim (rewrite_imports ts py w.go_resolver prep.relative prep.language prep.extracted.refs) [
      | none ↦ err panicked
      | some refs ↦ ok (some (record prep { extracted = record prep.extracted { refs = refs } }))
    ]

unfoldable pub prepare_file : World → Store → ScannedFile → Outcome (Option PreparedFile)
unfolding prepare_file_from_bytes rewritten
prepare_file w s file = elim file.language [
  | none ↦ ok none
  | some lang ↦ elim (w.read file.path) [
    | none ↦ err (io file.path)
    | some bytes ↦
        elim (prepare_file_from_bytes w s file.path bytes file.content_hash file.mtime file.size
          lang) [ none ↦ ok none | some prep ↦ rewritten w prep ]
  ]
]

abbrev prepared_first :
    Outcome (Option PreparedFile) → Outcome (List PreparedFile) → Outcome (List PreparedFile)
prepared_first (err e) later = err e
prepared_first (ok none) later = later
prepared_first (ok (some prep)) (ok preps) = ok (prep ∷ preps)
prepared_first (ok (some prep)) (err e) = err e

-- the files that are new or changed; the first error of the list is the one that counts
unfoldable pub prepare_files : World → Store → List ScannedFile → Outcome (List PreparedFile)
unfolding prepare_file
prepare_files w s [] = ok []
prepare_files w s (file ∷ files) = prepared_first (prepare_file w s file) (prepare_files w s files)

-- the loop over the prepared files, with the edges so far
unfoldable pub submit_all : World → SymbolTable → List PreparedFile → ℕ → WorktreeOwner → Step ℕ
unfolding submit_prepared
submit_all w symbols [] edges o = record { outcome = ok edges; owner = o }
submit_all w symbols (prep ∷ preps) edges o =
    and_then (submit_prepared w o prep symbols)
      (λ count o'. submit_all w symbols preps (edges + count) o')

unfoldable pub count_nodes : List PreparedFile → ℕ
count_nodes [] = 0
count_nodes (prep ∷ preps) = length prep.extracted.nodes + count_nodes preps

abbrev pub caller : ℕ
caller = 0

abbrev pub reconciled : WorktreeOwner → WorktreeOwner
reconciled o = record o { status = mark_reconcile_done o.status }

-- behind the loop: the writer has committed everything
unfoldable pub finish_pass :
    List ScannedFile → List PreparedFile → ℕ → WorktreeOwner → Step IndexSummary
unfolding send count_nodes
finish_pass scanned prepared edges o = and_then (send o (flush caller)) (λ _ o'. record {
  outcome = ok (record {
    files_scanned = length scanned;
    files_indexed = length prepared;
    nodes_created = count_nodes prepared;
    edges_created = edges;
  });
  owner = reconciled o';
})

-- all files are prepared before any is submitted
unfoldable pub index_all : World → Store → List ScannedFile → WorktreeOwner → Step IndexSummary
unfolding prepare_files build_symbol_table submit_all finish_pass
index_all w s scanned o = elim (prepare_files w s scanned) [
  | err e ↦ record { outcome = err e; owner = o }
  | ok prepared ↦
      and_then (submit_all w (build_symbol_table prepared) prepared 0 o)
        (finish_pass scanned prepared)
]

abbrev pub reconciling : WorktreeOwner → WorktreeOwner
reconciling o = record o { status = mark_reconcile_running o.status }

unfoldable pub sync_all : World → Store → List ScannedFile → WorktreeOwner → Step IndexSummary
unfolding index_all
sync_all w s scanned o = index_all w s scanned (reconciling o)

abbrev pub restarted : WorktreeOwner → WorktreeOwner
restarted o = record o { indexes = clear o.indexes; generation = 1 }

-- `CozoWriter::truncate_graph`: the message, and the engine's answer to the caller
unfoldable pub truncate_and_wait : (ℕ → Truncation) → WorktreeOwner → Step Unit
unfolding send
truncate_and_wait truncation o = and_then (send o (truncate (length o.sent))) (λ _ o'. record {
  outcome = elim (truncation (length o.sent)).error [ none ↦ ok tt | some e ↦ err (apply e) ];
  owner = o';
})

-- a truncation that reports an error ends the pass before the indexes are cleared
unfoldable pub reindex_all :
    (ℕ → Truncation) → World → Store → List ScannedFile → WorktreeOwner → Step IndexSummary
unfolding index_all send truncate_and_wait
reindex_all truncation w s scanned o = and_then (send (reconciling o) (flush caller)) (λ _ o1.
    and_then (truncate_and_wait truncation o1) (λ _ o2. index_all w s scanned (restarted o2)))

-- the paths of `active_file` that the scan did not find
unfoldable pub delete_absent : World → List RelPath → List RelPath → WorktreeOwner → Step Unit
unfolding process_delete
delete_absent w scanned_set [] o = record { outcome = ok tt; owner = o }
delete_absent w scanned_set (path ∷ paths) o =
    let later = delete_absent w scanned_set paths in
    if contains scanned_set path
    then later o
    else and_then (process_delete w o (w.worktree_root ++ path)) (λ _ o'. later o')

-- the new matcher has been built; `active` are the paths that `active_file` has behind the pass
unfoldable pub reconcile_after_ignore_change :
    World → Store → List ScannedFile → List RelPath → WorktreeOwner → Step Unit
unfolding index_all delete_absent relative_to
reconcile_after_ignore_change w s scanned active o = and_then (index_all w s scanned o) (λ _ o'.
    delete_absent w (map (λ (f : ScannedFile). relative_to w.worktree_root f.path) scanned) active
      o')
