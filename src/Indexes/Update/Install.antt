-- ===== src/Indexes/Update/Install.antt =====
-- What the new nodes and edges of an update add.
use xgraph.Prelude.{
  ◌≡◌, refl, Bool, true, false, ◌&&◌, ◌||◌, Option, none, some, List, [], ◌∷◌, ◌==◌, ==_iff,
  if◌then◌else◌, arith, contains, Bool-cases, inl, inr,
}
use xgraph.Text.{Text, text_key}
use xgraph.Map.{get, insert, get-insert}
use xgraph.Cozo.Facts.{NodeFact, EdgeFact, ContentHash}
use xgraph.Cozo.NodeIds.{active_node_id}
use xgraph.Indexes.State.{HotIndexes, NodeId, NodeRecord, FilePath, SymbolKey, symbol_key_key}
use xgraph.Indexes.Edges.{add_call_edge}
use xgraph.Indexes.Edges.Symmetric.{add_call_edge_lem}
use xgraph.Indexes.Symbols.{lookup_symbol, register_symbol, register_node_symbols}
use xgraph.Indexes.Symbols.Consistent.{lookup_symbol-register_symbol}
use xgraph.Indexes.Update.{
  install_node, install_nodes, node_record, ids_of, wire_edges, is_hot_traversal_edge,
}
use xgraph.Indexes.Update.Frame.{register_node_symbols-SameGraph}
use xgraph.Indexes.Update.Effect.{calls}

-- Some call or render edge of the list leads from one node to the other.
pub hot_edge : List EdgeFact → NodeId → NodeId → Bool
hot_edge [] a b = false
hot_edge (edge ∷ edges) a b =
    (is_hot_traversal_edge edge.kind && (edge.source_node_id == a && edge.target_node_id == b))
    || hot_edge edges a b

-- Some node of the list has the identifier, and the key's kind with its name or qualified name.
pub declares : ContentHash → List NodeFact → SymbolKey → NodeId → Bool
declares hash [] key x = false
declares hash (n ∷ nodes) key x =
    (active_node_id hash n.local_node_id == x
      && (n.kind == key.kind && (n.name == key.name || n.qname == key.name)))
    || declares hash nodes key x

-- The record of the last node of the list that has the identifier.
unfoldable pub declared : ContentHash → FilePath → List NodeFact → NodeId → Option NodeRecord
declared hash path [] x = none
declared hash path (n ∷ nodes) x =
    let id = active_node_id hash n.local_node_id in
    elim (declared hash path nodes x) [
      | some r ↦ some r
      | none ↦ if id == x then some (node_record id path n) else none
    ]

pub wire_edges-calls :
    (edges : List EdgeFact) (idx : HotIndexes) (a b : NodeId)
    → calls (wire_edges edges idx) a b ≡ (hot_edge edges a b || calls idx a b)
unfolding wire_edges hot_edge
wire_edges-calls [] idx a b = refl
wire_edges-calls (edge ∷ edges) idx a b = elim (Bool-cases (is_hot_traversal_edge edge.kind)) [
  | inl hot ↦ ground (
    arith,
    wire_edges-calls edges (add_call_edge idx edge.source_node_id edge.target_node_id) a b,
    add_call_edge_lem idx edge.source_node_id edge.target_node_id a b,
  )
  | inr cold ↦ ground (arith, wire_edges-calls edges idx a b)
]

key_eq :
    (name kind : Text) (key : SymbolKey)
    → (record { name = name; kind = kind } == key) ≡ (kind == key.kind && name == key.name)
key_eq name kind key =
    let k : SymbolKey = record { name = name; kind = kind } in
    ground (arith, ==_iff k key, ==_iff kind key.kind, ==_iff name key.name)

pub register_node_symbols-lookup :
    (idx : HotIndexes) (name qname kind : Text) (id : NodeId) (key : SymbolKey) (x : NodeId)
    → contains (lookup_symbol (register_node_symbols idx name qname kind id) key) x ≡ (
        (id == x && (kind == key.kind && (name == key.name || qname == key.name)))
        || contains (lookup_symbol idx key) x)
unfolding register_node_symbols
register_node_symbols-lookup idx name qname kind id key x =
    let k : SymbolKey = record { name = name; kind = kind } in
    let q : SymbolKey = record { name = qname; kind = kind } in
    ground (
      arith,
      lookup_symbol-register_symbol idx k id key x,
      lookup_symbol-register_symbol (register_symbol idx k id) q id key x,
      key_eq name kind key,
      key_eq qname kind key,
      ==_iff qname name,
    )

install_node-lookup :
    (hash : ContentHash) (path : FilePath) (n : NodeFact) (idx : HotIndexes) (key : SymbolKey)
    (x : NodeId)
    → contains (lookup_symbol (install_node hash path n idx) key) x ≡ (
        (active_node_id hash n.local_node_id == x
          && (n.kind == key.kind && (n.name == key.name || n.qname == key.name)))
        || contains (lookup_symbol idx key) x)
unfolding install_node lookup_symbol
install_node-lookup hash path n idx key x =
    let id = active_node_id hash n.local_node_id in
    unfold lookup_symbol in
    register_node_symbols-lookup
      (record idx { nodes = insert idx.nodes id (node_record id path n) }) n.name n.qname n.kind id
      key x

pub install_nodes-lookup :
    (hash : ContentHash) (path : FilePath) (nodes : List NodeFact) (idx : HotIndexes)
    (key : SymbolKey) (x : NodeId)
    → contains (lookup_symbol (install_nodes hash path nodes idx) key) x
      ≡ (declares hash nodes key x || contains (lookup_symbol idx key) x)
unfolding install_nodes declares
install_nodes-lookup hash path [] idx key x = refl
install_nodes-lookup hash path (n ∷ nodes) idx key x = ground (
  arith,
  install_nodes-lookup hash path nodes (install_node hash path n idx) key x,
  install_node-lookup hash path n idx key x,
)

install_node-get :
    (hash : ContentHash) (path : FilePath) (n : NodeFact) (idx : HotIndexes) (x : NodeId)
    → get (install_node hash path n idx).nodes x ≡ (
        if active_node_id hash n.local_node_id == x
        then some (node_record (active_node_id hash n.local_node_id) path n)
        else get idx.nodes x)
unfolding install_node
install_node-get hash path n idx x =
    let id = active_node_id hash n.local_node_id in
    let r = node_record id path n in
    let h =
      register_node_symbols-SameGraph (record idx { nodes = insert idx.nodes id r }) n.name n.qname
        n.kind id in
    ground (arith, h.nodes, get-insert idx.nodes id r x)

pub install_nodes-get :
    (hash : ContentHash) (path : FilePath) (nodes : List NodeFact) (idx : HotIndexes) (x : NodeId)
    → get (install_nodes hash path nodes idx).nodes x
      ≡ elim (declared hash path nodes x) [ some r ↦ some r | none ↦ get idx.nodes x ]
unfolding install_nodes declared
install_nodes-get hash path [] idx x = refl
install_nodes-get hash path (n ∷ nodes) idx x = ground (
  arith,
  install_nodes-get hash path nodes (install_node hash path n idx) x,
  install_node-get hash path n idx x,
)

-- what `declared` says of an identifier
abbrev pub Describes : List NodeId → FilePath → NodeId → Option NodeRecord → Type 0
Describes ids path x none = contains ids x ≡ false
Describes ids path x (some r) = (contains ids x ≡ true) × (r.path ≡ path) × (r.id ≡ x)

-- A node of the list has a record, and records are of nodes of the list.
pub declared-Describes :
    (hash : ContentHash) (path : FilePath) (nodes : List NodeFact) (x : NodeId)
    → Describes (ids_of hash nodes) path x (declared hash path nodes x)
unfolding declared ids_of contains node_record
declared-Describes hash path [] x = refl
declared-Describes hash path (n ∷ nodes) x =
    ground
      (arith, declared-Describes hash path nodes x, ==_iff (active_node_id hash n.local_node_id) x)
