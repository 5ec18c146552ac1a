-- ===== src/Watcher.antt =====
-- watcher.rs: what the debounce worker makes of the file system's events. The ignore matcher and the
-- test for a directory are parameters. The timer and the channels give a sequence of inputs; a deadline
-- that has not been set never fires.
pub mod Batches
pub mod Loop
use xgraph.Prelude.{
  ℕ, Bool, true, false, not, ◌&&◌, ◌||◌, Option, none, some, List, [], ◌∷◌, ◌++◌, map,
  if◌then◌else◌, Key, ◌==◌, is_empty, contains, nat_key, list_key, nat_beq, nat_beq_iff, ◌↔◌, ◌≡◌,
  refl, arith,
}
use xgraph.Text.{Text, text, text_key}
use xgraph.Map.{Map, empty, insert, iter}
use xgraph.Manifest.{PathBuf, path_key, sort}

pub record BatchedChanges : Type 0 where
  pub created : List PathBuf
  pub modified : List PathBuf
  pub deleted : List PathBuf
  pub ignore_file_changed : Bool

abbrev pub no_changes : BatchedChanges
no_changes = record { created = []; modified = []; deleted = []; ignore_file_changed = false }

unfoldable pub batch_is_empty : BatchedChanges → Bool
batch_is_empty b =
    not b.ignore_file_changed && (is_empty b.created && (is_empty b.modified && is_empty b.deleted))

pub data ChangeKind : Type 0 where
  created modified deleted : ChangeKind

pub record RawEvent : Type 0 where
  pub path : PathBuf
  pub kind : ChangeKind

-- the cases of `notify`'s events that the code names, and one for the others
pub data RenameMode : Type 0 where
  from to both any other : RenameMode

pub data EventKind : Type 0 where
  create modify remove unnamed : EventKind
  rename : RenameMode → EventKind

unfoldable pub broadcast : List PathBuf → ChangeKind → List RawEvent
broadcast paths kind = map (λ (p : PathBuf). record { path = p; kind = kind }) paths

-- the source of a rename, its target, and any further path
unfoldable pub rename_both : List PathBuf → List RawEvent
unfolding broadcast
rename_both [] = []
rename_both (source ∷ []) = record { path = source; kind = deleted } ∷ []
rename_both (source ∷ target ∷ further) =
    record { path = source; kind = deleted }
    ∷ record { path = target; kind = created }
    ∷ broadcast further modified

unfoldable pub raw_events_from : EventKind → List PathBuf → List RawEvent
unfolding broadcast rename_both
raw_events_from create paths = broadcast paths created
raw_events_from modify paths = broadcast paths modified
raw_events_from (rename from) paths = broadcast paths deleted
raw_events_from (rename to) paths = broadcast paths created
raw_events_from (rename both) paths = rename_both paths
raw_events_from (rename any) paths = broadcast paths modified
raw_events_from (rename other) paths = broadcast paths modified
raw_events_from remove paths = broadcast paths deleted
raw_events_from unnamed paths = []

-- the components in front of the last one, the nearest first
unfoldable pub reversed : PathBuf → PathBuf
reversed [] = []
reversed (c ∷ cs) = reversed cs ++ c ∷ []

unfoldable pub path_under_git_info : PathBuf → Bool
unfolding reversed contains
path_under_git_info path = elim (reversed path) [
  | [] ↦ false
  | file ∷ above ↦ if not (file == text "exclude") then false else elim above [
    | [] ↦ false
    | parent ∷ ancestors ↦
        if not (parent == text "info") then false else contains ancestors (text ".git")
  ]
]

-- the last component is the file name
unfoldable pub path_is_ignore_source : PathBuf → Bool
unfolding path_under_git_info reversed
path_is_ignore_source path = elim (reversed path) [
  | [] ↦ false
  | name ∷ _ ↦
      if name == text ".gitignore" || name == text ".xgraphignore"
      then true
      else if name == text "exclude"
      then path_under_git_info path
      else false
]

abbrev pub Pending : Type 0
Pending = Map PathBuf ChangeKind

unfoldable pub record_event : Pending → RawEvent → Pending
unfolding insert
record_event pending event = insert pending event.path event.kind

-- what the loop's `match kind` does
unfoldable pub push_change : BatchedChanges → PathBuf → ChangeKind → BatchedChanges
push_change b path created = record b { created = b.created ++ path ∷ [] }
push_change b path modified = record b { modified = b.modified ++ path ∷ [] }
push_change b path deleted = record b { deleted = b.deleted ++ path ∷ [] }

unfoldable pub note_ignore_source : BatchedChanges → PathBuf → BatchedChanges
unfolding path_is_ignore_source
note_ignore_source b path =
    if path_is_ignore_source path then record b { ignore_file_changed = true } else b

unfoldable pub sort_batch : BatchedChanges → BatchedChanges
unfolding sort
sort_batch b = record b {
  created = sort b.created;
  modified = sort b.modified;
  deleted = sort b.deleted;
}

pub data Input : Type 0 where
  raw : RawEvent → Input
  timer shutdown disconnected : Input

-- The worker: what is pending, whether a deadline is set, the batches that it sent, the directories that
-- it asked to watch, and whether it has returned.
pub record Worker : Type 0 where
  pub pending : Pending
  pub armed : Bool
  pub sent : List BatchedChanges
  pub watched : List PathBuf
  pub returned : Bool

abbrev pub new_worker : Worker
new_worker = record { pending = empty; armed = false; sent = []; watched = []; returned = false }

module _ (matched : PathBuf → Bool) (is_dir : PathBuf → Bool) where
  -- one round of the loop over the drained events
  unfoldable pub batch_event : BatchedChanges → PathBuf → ChangeKind → BatchedChanges
  unfolding note_ignore_source push_change
  batch_event b path kind =
      let noted = note_ignore_source b path in
      if matched path then noted else push_change noted path kind

  unfoldable pub batch_events : BatchedChanges → List (PathBuf × ChangeKind) → BatchedChanges
  unfolding batch_event
  batch_events b [] = b
  batch_events b ((path, kind) ∷ events) = batch_events (batch_event b path kind) events

  unfoldable pub build_batch : List (PathBuf × ChangeKind) → BatchedChanges
  unfolding batch_events sort_batch
  build_batch events = sort_batch (batch_events no_changes events)

  -- an empty batch is not sent
  unfoldable pub flush : Worker → Worker
  unfolding build_batch batch_is_empty iter
  flush w =
      if is_empty w.pending.entries
      then w
      else let batch = build_batch (iter w.pending) in
        if batch_is_empty batch
        then record w { pending = empty }
        else record w { pending = empty; sent = w.sent ++ batch ∷ [] }

  unfoldable pub maybe_attach_watch_for_new_dir : Worker → PathBuf → Worker
  maybe_attach_watch_for_new_dir w path =
      if not (is_dir path)
      then w
      else if matched path
      then w
      else record w { watched = w.watched ++ path ∷ [] }

  -- a new directory is watched at once
  unfoldable pub attach : Worker → PathBuf → ChangeKind → Worker
  unfolding maybe_attach_watch_for_new_dir
  attach w path created = maybe_attach_watch_for_new_dir w path
  attach w path modified = w
  attach w path deleted = w

  -- an arm of the `select!`
  unfoldable pub handle : Worker → Input → Worker
  unfolding flush record_event attach
  handle w (raw event) =
      let attached = attach w event.path event.kind in
      record attached { pending = record_event attached.pending event; armed = true }
  handle w timer = if w.armed then record (flush w) { armed = false } else w
  handle w shutdown = record (flush w) { returned = true }
  handle w disconnected = record (flush w) { returned = true }

  -- the loop, which takes nothing once it has returned
  unfoldable pub run_debounce_loop : Worker → List Input → Worker
  unfolding handle
  run_debounce_loop w [] = w
  run_debounce_loop w (input ∷ inputs) =
      let later = run_debounce_loop (handle w input) inputs in if w.returned then w else later
