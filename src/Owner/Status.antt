-- ===== src/Owner/Status.antt =====
-- daemon_status.rs: what the owner tells the request handlers. The cached memory figure is left out.
use xgraph.Prelude.{
  ℕ, Bool, true, false, not, List, [], ◌∷◌, length, is_empty, contains, if◌then◌else◌, ◌==◌,
  list_key, nat_key,
}
use xgraph.Imports.Python.{RelPath, rel_path_key}

pub record DaemonStatus : Type 0 where
  pub initial_reconcile_done : Bool
  pub pending_paths : List RelPath

abbrev pub new : DaemonStatus
new = record { initial_reconcile_done = false; pending_paths = [] }

abbrev pub mark_reconcile_done : DaemonStatus → DaemonStatus
mark_reconcile_done s = record s { initial_reconcile_done = true }

abbrev pub mark_reconcile_running : DaemonStatus → DaemonStatus
mark_reconcile_running s = record s { initial_reconcile_done = false; pending_paths = [] }

-- the set's elements without one of them
unfoldable pub dropping : RelPath → List RelPath → List RelPath
dropping path [] = []
dropping path (p ∷ ps) = if p == path then dropping path ps else p ∷ dropping path ps

-- a set has a path once
unfoldable pub mark_pending : DaemonStatus → RelPath → DaemonStatus
unfolding dropping
mark_pending s path = record s { pending_paths = path ∷ dropping path s.pending_paths }

unfoldable pub unmark_pending : DaemonStatus → RelPath → DaemonStatus
unfolding dropping
unmark_pending s path = record s { pending_paths = dropping path s.pending_paths }

unfoldable pub is_path_pending : DaemonStatus → RelPath → Bool
unfolding contains
is_path_pending s path = contains s.pending_paths path

abbrev pub any_pending : DaemonStatus → Bool
any_pending s = not (is_empty s.pending_paths)

abbrev pub pending_count : DaemonStatus → ℕ
pending_count s = length s.pending_paths
