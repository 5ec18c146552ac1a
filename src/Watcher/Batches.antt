-- ===== src/Watcher/Batches.antt =====
-- A batch against the events that it was built from.
use xgraph.Prelude.{
  Bool, true, false, not, ◌&&◌, ◌||◌, Option, none, some, List, [], ◌∷◌, ◌==◌, ==_iff, ◌≡◌, refl,
  arith, ◌∙◌, contains, contains-append,
}
use xgraph.Map.{Map, find, without, unique, get, iter}
use xgraph.Manifest.{PathBuf, path_key}
use xgraph.Manifest.Buckets.{contains-sort}
use xgraph.Watcher.{
  BatchedChanges, no_changes, ChangeKind, created, modified, deleted, push_change,
  note_ignore_source, sort_batch, batch_event, batch_events, build_batch,
}

abbrev pub bucket : ChangeKind → BatchedChanges → List PathBuf
bucket created b = b.created
bucket modified b = b.modified
bucket deleted b = b.deleted

abbrev pub is_kind : ChangeKind → ChangeKind → Bool
is_kind created created = true
is_kind modified modified = true
is_kind deleted deleted = true
is_kind created modified = false
is_kind created deleted = false
is_kind modified created = false
is_kind modified deleted = false
is_kind deleted created = false
is_kind deleted modified = false

-- it is this kind
abbrev pub says : ChangeKind → Option ChangeKind → Bool
says k none = false
says k (some j) = is_kind j k

-- some entry gives the path this kind
unfoldable mentions : ChangeKind → List (PathBuf × ChangeKind) → PathBuf → Bool
mentions k [] p = false
mentions k ((q, j) ∷ events) p = (q == p && is_kind j k) || mentions k events p

mentions-without :
    (k : ChangeKind) (gone : PathBuf) (l : List (PathBuf × ChangeKind)) (p : PathBuf)
    → mentions k (without gone l) p ≡ (not (gone == p) && mentions k l p)
unfolding mentions without
mentions-without k gone [] p = ground arith
mentions-without k gone ((q, j) ∷ l) p =
    ground (arith, mentions-without k gone l p, ==_iff q gone, ==_iff gone p, ==_iff q p)

mentions-unique :
    (k : ChangeKind) (l : List (PathBuf × ChangeKind)) (p : PathBuf)
    → mentions k (unique l) p ≡ says k (find p l)
unfolding mentions unique find
mentions-unique k [] p = refl
mentions-unique k ((q, j) ∷ l) p =
    ground (arith, mentions-unique k l p, mentions-without k q (unique l) p, ==_iff q p)

module _ (matched : PathBuf → Bool) (is_dir : PathBuf → Bool) where
  push_change-bucket :
      (b : BatchedChanges) (q p : PathBuf) (j k : ChangeKind)
      → contains (bucket k (push_change b q j)) p
        ≡ (contains (bucket k b) p || (q == p && is_kind j k))
  unfolding push_change contains
  push_change-bucket b q p created created = contains-append b.created (q ∷ []) p ∙ ground arith
  push_change-bucket b q p modified modified = contains-append b.modified (q ∷ []) p ∙ ground arith
  push_change-bucket b q p deleted deleted = contains-append b.deleted (q ∷ []) p ∙ ground arith
  push_change-bucket b q p created modified = ground arith
  push_change-bucket b q p created deleted = ground arith
  push_change-bucket b q p modified created = ground arith
  push_change-bucket b q p modified deleted = ground arith
  push_change-bucket b q p deleted created = ground arith
  push_change-bucket b q p deleted modified = ground arith

  note_ignore_source-bucket :
      (b : BatchedChanges) (q : PathBuf) (k : ChangeKind)
      → bucket k (note_ignore_source b q) ≡ bucket k b
  unfolding note_ignore_source
  note_ignore_source-bucket b q created = ground arith
  note_ignore_source-bucket b q modified = ground arith
  note_ignore_source-bucket b q deleted = ground arith

  batch_events-bucket :
      (b : BatchedChanges) (l : List (PathBuf × ChangeKind)) (p : PathBuf) (k : ChangeKind)
      → contains (bucket k (batch_events matched is_dir b l)) p
        ≡ (contains (bucket k b) p || (not (matched p) && mentions k l p))
  unfolding batch_events batch_event mentions
  batch_events-bucket b [] p k = ground arith
  batch_events-bucket b ((q, j) ∷ l) p k = ground (
    arith,
    batch_events-bucket (batch_event matched is_dir b q j) l p k,
    push_change-bucket (note_ignore_source b q) q p j k,
    note_ignore_source-bucket b q k,
    ==_iff q p,
  )

  sort_batch-bucket :
      (b : BatchedChanges) (k : ChangeKind) (p : PathBuf)
      → contains (bucket k (sort_batch b)) p ≡ contains (bucket k b) p
  unfolding sort_batch
  sort_batch-bucket b created p = contains-sort b.created p
  sort_batch-bucket b modified p = contains-sort b.modified p
  sort_batch-bucket b deleted p = contains-sort b.deleted p

  -- The batch of what is pending has a path under a kind exactly if the matcher lets the path pass and
  -- the path's pending kind is this one. So a path stands in at most one of the three lists.
  pub build_batch-bucket :
      (pending : Map PathBuf ChangeKind) (p : PathBuf) (k : ChangeKind)
      → contains (bucket k (build_batch matched is_dir (iter pending))) p
        ≡ (not (matched p) && says k (get pending p))
  unfolding build_batch iter get contains
  build_batch-bucket pending p k =
      sort_batch-bucket (batch_events matched is_dir no_changes (iter pending)) k p
      ∙ batch_events-bucket no_changes (iter pending) p k
      ∙ ground (arith, mentions-unique k pending.entries p)
