-- ===== src/Indexes/Update/Frame.antt =====
-- Which tables the steps of an update leave alone.
use xgraph.Prelude.{◌≡◌, refl, List, [], ◌∷◌, ◌==◌, arith, ◌∙◌, not, retain}
use xgraph.Text.{Text, text_key}
use xgraph.Map.{insert, map_values, iter}
use xgraph.Map.Lists.{push_at}
use xgraph.Cozo.Facts.{NodeFact, EdgeFact, ContentHash}
use xgraph.Cozo.NodeIds.{active_node_id}
use xgraph.Indexes.State.{HotIndexes, NodeId, FilePath, SymbolKey, symbol_key_key}
use xgraph.Indexes.Edges.{add_call_edge}
use xgraph.Indexes.Symbols.{
  drop_key, drop_keys, emptied, remove_symbol_references, register_symbol, register_node_symbols,
}
use xgraph.Indexes.Symbols.Trigrams.{index_name_trigrams-SameSymbols}
use xgraph.Indexes.Update.{install_node, install_nodes, node_record, wire_edges}

-- the tables that a change of symbols leaves alone
pub record SameGraph (idx idx' : HotIndexes) : Type 0 where
  pub nodes : idx'.nodes ≡ idx.nodes
  pub files : idx'.files ≡ idx.files
  pub callers : idx'.callers ≡ idx.callers
  pub callees : idx'.callees ≡ idx.callees

pub record SameNames (idx idx' : HotIndexes) : Type 0 where
  pub names : idx'.names ≡ idx.names
  pub name_to_idx : idx'.name_to_idx ≡ idx.name_to_idx
  pub trigrams : idx'.trigrams ≡ idx.trigrams

pub SameGraph-trans : {a b c : HotIndexes} → SameGraph a b → SameGraph b c → SameGraph a c
SameGraph-trans h k = record {
  nodes = k.nodes ∙ h.nodes;
  files = k.files ∙ h.files;
  callers = k.callers ∙ h.callers;
  callees = k.callees ∙ h.callees;
}

pub SameNames-trans : {a b c : HotIndexes} → SameNames a b → SameNames b c → SameNames a c
SameNames-trans h k = record {
  names = k.names ∙ h.names;
  name_to_idx = k.name_to_idx ∙ h.name_to_idx;
  trigrams = k.trigrams ∙ h.trigrams;
}

drop_keys-SameGraph :
    (idx : HotIndexes) (keys : List SymbolKey) → SameGraph idx (drop_keys idx keys)
unfolding drop_keys drop_key
drop_keys-SameGraph idx [] = record { nodes = refl; files = refl; callers = refl; callees = refl }
drop_keys-SameGraph idx (key ∷ keys) =
    let h = drop_keys-SameGraph (drop_key idx key) keys in
    record { nodes = h.nodes; files = h.files; callers = h.callers; callees = h.callees }

drop_keys-SameNames :
    (idx : HotIndexes) (keys : List SymbolKey) → SameNames idx (drop_keys idx keys)
unfolding drop_keys drop_key
drop_keys-SameNames idx [] = record { names = refl; name_to_idx = refl; trigrams = refl }
drop_keys-SameNames idx (key ∷ keys) =
    let h = drop_keys-SameNames (drop_key idx key) keys in
    record { names = h.names; name_to_idx = h.name_to_idx; trigrams = h.trigrams }

pub remove_symbol_references-SameGraph :
    (idx : HotIndexes) (id : NodeId) → SameGraph idx (remove_symbol_references idx id)
unfolding remove_symbol_references
remove_symbol_references-SameGraph idx id =
    let symbols = map_values (retain (λ candidate. not (candidate == id))) idx.symbols in
    let h = drop_keys-SameGraph (record idx { symbols = symbols }) (emptied (iter symbols)) in
    record { nodes = h.nodes; files = h.files; callers = h.callers; callees = h.callees }

pub remove_symbol_references-SameNames :
    (idx : HotIndexes) (id : NodeId) → SameNames idx (remove_symbol_references idx id)
unfolding remove_symbol_references
remove_symbol_references-SameNames idx id =
    let symbols = map_values (retain (λ candidate. not (candidate == id))) idx.symbols in
    let h = drop_keys-SameNames (record idx { symbols = symbols }) (emptied (iter symbols)) in
    record { names = h.names; name_to_idx = h.name_to_idx; trigrams = h.trigrams }

pub register_symbol-SameGraph :
    (idx : HotIndexes) (key : SymbolKey) (id : NodeId) → SameGraph idx (register_symbol idx key id)
unfolding register_symbol
register_symbol-SameGraph idx key id =
    let h =
      index_name_trigrams-SameSymbols
        (record idx {
          symbols = push_at idx.symbols key id;
          symbols_by_name = push_at idx.symbols_by_name key.name key;
        })
        key.name in
    record { nodes = h.nodes; files = h.files; callers = h.callers; callees = h.callees }

pub register_node_symbols-SameGraph :
    (idx : HotIndexes) (name qname kind : Text) (id : NodeId)
    → SameGraph idx (register_node_symbols idx name qname kind id)
unfolding register_node_symbols
register_node_symbols-SameGraph idx name qname kind id =
    let first : SymbolKey = record { name = name; kind = kind } in
    ground (
      arith,
      register_symbol-SameGraph idx first id,
      register_symbol-SameGraph (register_symbol idx first id)
          (record { name = qname; kind = kind }) id,
    )

pub install_nodes-files :
    (hash : ContentHash) (path : FilePath) (nodes : List NodeFact) (idx : HotIndexes)
    → ((install_nodes hash path nodes idx).files ≡ idx.files)
      × ((install_nodes hash path nodes idx).callees ≡ idx.callees)
      × ((install_nodes hash path nodes idx).callers ≡ idx.callers)
unfolding install_nodes install_node
install_nodes-files hash path [] idx = (refl, refl, refl)
install_nodes-files hash path (node ∷ nodes) idx =
    let id = active_node_id hash node.local_node_id in
    let h =
      register_node_symbols-SameGraph
        (record idx { nodes = insert idx.nodes id (node_record id path node) }) node.name node.qname
        node.kind id in
    let (f, out, inn) = install_nodes-files hash path nodes (install_node hash path node idx) in
    (f ∙ h.files, out ∙ h.callees, inn ∙ h.callers)

-- the tables that a change of edges leaves alone
pub record SameFacts (idx idx' : HotIndexes) : Type 0 where
  pub nodes : idx'.nodes ≡ idx.nodes
  pub files : idx'.files ≡ idx.files
  pub symbols : idx'.symbols ≡ idx.symbols
  pub symbols_by_name : idx'.symbols_by_name ≡ idx.symbols_by_name
  pub same_names : SameNames idx idx'

pub wire_edges-SameFacts :
    (edges : List EdgeFact) (idx : HotIndexes) → SameFacts idx (wire_edges edges idx)
unfolding wire_edges add_call_edge
wire_edges-SameFacts [] idx = record {
  nodes = refl;
  files = refl;
  symbols = refl;
  symbols_by_name = refl;
  same_names = record { names = refl; name_to_idx = refl; trigrams = refl };
}
wire_edges-SameFacts (edge ∷ edges) idx = ground (
  arith,
  wire_edges-SameFacts edges idx,
  wire_edges-SameFacts edges (add_call_edge idx edge.source_node_id edge.target_node_id),
)
