-- ===== src/Cozo/Store.antt =====
-- cozo.rs: the relations of the store and `apply_file_updates_batch`, whose script is one transaction:
-- each of its blocks is a step on the relations. Whether the engine accepts it is a parameter; a
-- transaction that it refuses changes nothing. `HashMap::into_values` is in the order of first
-- insertion, one of those that the standard library leaves open.
pub mod Batch
use xgraph.Prelude.{
  ℕ, zero, suc, ◌+◌, ◌^◌, ltb, Bool, true, false, not, ◌&&◌, ◌||◌, Option, none, some, List, [],
  ◌∷◌, ◌++◌, map, if◌then◌else◌, Key, ◌==◌, list_beq, list_beq_iff, nat_key, list_key, ◌↔◌, ◌≡◌,
  arith, contains,
}
use xgraph.Text.{Text, text_key, text}
use xgraph.Map.{Map, empty, get, insert, iter}
use xgraph.Map.Filter.{retain_entries, put_rows}
use xgraph.Cozo.Facts.{ContentHash, Span, NodeFact, RefFact, EdgeFact, Diagnostic, FileUpdate}
use xgraph.Cozo.NodeIds.{active_node_id}

pub record ContentFile : Type 0 where
  pub language : Text
  pub parser_version : ℕ
  pub diagnostics : List Diagnostic

pub record ActiveFile : Type 0 where
  pub content_hash : ContentHash
  pub mtime : ℕ
  pub size : ℕ
  pub generation : ℕ

pub record ActiveNode : Type 0 where
  pub path : Text
  pub content_hash : ContentHash
  pub fact : NodeFact

pub record EdgeKey : Type 0 where
  pub source_node_id : Text
  pub kind : Text
  pub target_node_id : Text

unfoldable pub edge_key_beq : EdgeKey → EdgeKey → Bool
edge_key_beq a b =
    list_beq a.source_node_id b.source_node_id
    && (list_beq a.kind b.kind && list_beq a.target_node_id b.target_node_id)

pub edge_key_beq_iff : (a b : EdgeKey) → (edge_key_beq a b ≡ true) ↔ (a ≡ b)
unfolding edge_key_beq
edge_key_beq_iff a b = ground (
  arith,
  list_beq_iff a.source_node_id b.source_node_id,
  list_beq_iff a.kind b.kind,
  list_beq_iff a.target_node_id b.target_node_id,
)

instance abbrev pub edge_key_key : Key EdgeKey
edge_key_key = record { same = edge_key_beq; same_iff = edge_key_beq_iff }

pub record SymbolRow : Type 0 where
  pub qname : Text
  pub path : Text

-- The keys of `content_node` and `content_ref` are a hash with a local id in front, those of `symbol`
-- are name, kind and node id.
pub record Store : Type 0 where
  pub content_file : Map ContentHash ContentFile
  pub content_node : Map (List ℕ) NodeFact
  pub content_ref : Map (List ℕ) RefFact
  pub active_file : Map Text ActiveFile
  pub active_node : Map Text ActiveNode
  pub edge : Map EdgeKey (Text × ℕ)
  pub symbol : Map (List Text) SymbolRow

-- the relations as `install_schema` makes them
abbrev pub empty_store : Store
empty_store = record {
  content_file = empty;
  content_node = empty;
  content_ref = empty;
  active_file = empty;
  active_node = empty;
  edge = empty;
  symbol = empty;
}

-- What the engine answers to the commands of `truncate_graph`. The errors of the commands that remove
-- the relations are dropped, so any of them may stay as it was; that of `install_schema` is returned.
pub record Truncation : Type 0 where
  pub removed : Text → Bool
  pub error : Option Text

abbrev pub left_by {ℓ κ} : {K : Type ℓ} {V : Type κ} → Bool → Map K V → Map K V
left_by gone m = if gone then empty else m

unfoldable pub truncate_graph : Truncation → Store → Store
truncate_graph t s = record {
  content_file = left_by (t.removed (text "content_file")) s.content_file;
  content_node = left_by (t.removed (text "content_node")) s.content_node;
  content_ref = left_by (t.removed (text "content_ref")) s.content_ref;
  active_file = left_by (t.removed (text "active_file")) s.active_file;
  active_node = left_by (t.removed (text "active_node")) s.active_node;
  edge = left_by (t.removed (text "edge")) s.edge;
  symbol = left_by (t.removed (text "symbol")) s.symbol;
}

-- the node is active for one of the paths
unfoldable pub is_replaced : Store → List Text → Text → Bool
unfolding contains get
is_replaced s paths id = elim (get s.active_node id) [
  | none ↦ false
  | some row ↦ contains paths row.path
]

-- the four blocks that remove what the paths had
unfoldable pub remove_old : List Text → Store → Store
unfolding is_replaced retain_entries contains
remove_old paths s = record s {
  edge =
      retain_entries (λ k v. not (is_replaced s paths k.target_node_id))
        (retain_entries (λ k v. not (is_replaced s paths k.source_node_id)) s.edge);
  symbol = retain_entries (λ k v. not (contains paths v.path)) s.symbol;
  active_node = retain_entries (λ k v. not (contains paths v.path)) s.active_node;
}

unfoldable pub content_file_row : FileUpdate → ContentHash × ContentFile
content_file_row u = (
  u.content_hash,
  record { language = u.language; parser_version = u.parser_version; diagnostics = u.diagnostics },
)

unfoldable pub active_file_row : FileUpdate → Text × ActiveFile
active_file_row u = (
  u.path,
  record {
    content_hash = u.content_hash;
    mtime = u.mtime;
    size = u.size;
    generation = u.generation;
  },
)

unfoldable pub nodes_to_data_value : ContentHash → List NodeFact → List (List ℕ × NodeFact)
nodes_to_data_value hash nodes = map (λ (n : NodeFact). (n.local_node_id ∷ hash, n)) nodes

unfoldable pub refs_to_data_value : ContentHash → List RefFact → List (List ℕ × RefFact)
refs_to_data_value hash refs = map (λ (r : RefFact). (r.local_ref_id ∷ hash, r)) refs

unfoldable pub active_nodes_to_data_value :
    Text → ContentHash → List NodeFact → List (Text × ActiveNode)
active_nodes_to_data_value path hash nodes =
    map
      (λ (n : NodeFact). (
        active_node_id hash n.local_node_id,
        record { path = path; content_hash = hash; fact = n },
      ))
      nodes

unfoldable pub edges_to_data_value : List EdgeFact → List (EdgeKey × (Text × ℕ))
edges_to_data_value edges =
    map
      (λ (e : EdgeFact). (
        record {
          source_node_id = e.source_node_id;
          kind = e.kind;
          target_node_id = e.target_node_id;
        },
        (e.provenance, e.confidence),
      ))
      edges

unfoldable pub symbols_to_data_value :
    Text → ContentHash → List NodeFact → List (List Text × SymbolRow)
symbols_to_data_value path hash nodes =
    map
      (λ (n : NodeFact). (
        n.name ∷ n.kind ∷ active_node_id hash n.local_node_id ∷ [],
        record { qname = n.qname; path = path },
      ))
      nodes

-- the rows of every update, one after another
unfoldable pub concat_rows {ℓ κ} : {U : Type ℓ} {R : Type κ} → (U → List R) → List U → List R
concat_rows rows [] = []
concat_rows rows (u ∷ updates) = rows u ++ concat_rows rows updates

-- the seven blocks that put the new rows
unfoldable pub put_new : List FileUpdate → Store → Store
unfolding put_rows concat_rows content_file_row active_file_row nodes_to_data_value
    refs_to_data_value active_nodes_to_data_value edges_to_data_value symbols_to_data_value
put_new updates s = record {
  content_file = put_rows (map content_file_row updates) s.content_file;
  content_node =
      put_rows
        (concat_rows (λ (u : FileUpdate). nodes_to_data_value u.content_hash u.nodes) updates)
        s.content_node;
  content_ref =
      put_rows (concat_rows (λ (u : FileUpdate). refs_to_data_value u.content_hash u.refs) updates)
        s.content_ref;
  active_file = put_rows (map active_file_row updates) s.active_file;
  active_node =
      put_rows
        (concat_rows (λ (u : FileUpdate). active_nodes_to_data_value u.path u.content_hash u.nodes)
          updates)
        s.active_node;
  edge = put_rows (concat_rows (λ (u : FileUpdate). edges_to_data_value u.edges) updates) s.edge;
  symbol =
      put_rows
        (concat_rows (λ (u : FileUpdate). symbols_to_data_value u.path u.content_hash u.nodes)
          updates)
        s.symbol;
}

-- `latest_by_path`: of two updates of a path the one with the greater generation, or the earlier
unfoldable pub latest_by_path : List FileUpdate → Map Text FileUpdate → Map Text FileUpdate
unfolding insert get
latest_by_path [] latest = latest
latest_by_path (u ∷ updates) latest = latest_by_path updates (elim (get latest u.path) [
  | none ↦ insert latest u.path u
  | some held ↦ if ltb held.generation u.generation then insert latest u.path u else latest
])

unfoldable pub values : List (Text × FileUpdate) → List FileUpdate
values entries = map (λ (k, u). u) entries

pub data CozoError : Type 0 where
  too_large : ℕ → CozoError
  engine : Text → CozoError

pub data Applied : Type 0 where
  applied : Store → Applied
  failed : CozoError → Applied

-- `i64_from_u64` of the sizes and generations: the first that does not fit
unfoldable pub first_too_large : List FileUpdate → Option ℕ
first_too_large [] = none
first_too_large (u ∷ updates) =
    if not (ltb u.size (2 ^ 63))
    then some u.size
    else if not (ltb u.generation (2 ^ 63))
    then some u.generation
    else first_too_large updates

module _ (refuses : List FileUpdate → Option Text) where
  unfoldable pub run_transaction : Store → List FileUpdate → Applied
  unfolding remove_old put_new first_too_large
  run_transaction s updates = elim (first_too_large updates) [
    | some value ↦ failed (too_large value)
    | none ↦ elim (refuses updates) [
      | some message ↦ failed (engine message)
      | none ↦ applied (put_new updates (remove_old (map (λ (u : FileUpdate). u.path) updates) s))
    ]
  ]

  unfoldable pub apply_file_updates_batch : Store → List FileUpdate → Applied
  unfolding latest_by_path values run_transaction iter
  apply_file_updates_batch s [] = applied s
  apply_file_updates_batch s (u ∷ updates) =
      run_transaction s (values (iter (latest_by_path (u ∷ updates) empty)))
