-- ===== src/Indexes/Update/Invariant.antt =====
-- Every operation keeps the indexes consistent with one another.
use Prim.Native.Nat.{◌^◌}
use xgraph.Prelude.{
  ℕ, ◌+◌, ◌*◌, ◌≤◌, ◌<◌, ◌≡◌, refl, List, [], ◌∷◌, ◌==◌, arith, length, Bool-cases, inl, inr,
}
use xgraph.Text.{Text, text_key}
use xgraph.Map.{insert, remove}
use xgraph.Map.Lists.{get_list}
use xgraph.Cozo.Facts.{NodeFact, ContentHash}
use xgraph.Cozo.NodeIds.{active_node_id}
use xgraph.Indexes.State.{HotIndexes, NodeId, FilePath, SymbolKey, symbol_key_key}
use xgraph.Indexes.Edges.{remove_edges_for_node}
use xgraph.Indexes.Edges.Symmetric.{EdgesMatch}
use xgraph.Indexes.Symbols.{register_symbol, register_node_symbols}
use xgraph.Indexes.Symbols.Consistent.{SymbolsMatch, register_symbol-SymbolsMatch}
use xgraph.Indexes.Symbols.Removal.{remove_symbol_references-SymbolsMatch}
use xgraph.Indexes.Symbols.Trigrams.{
  TrigramsCover, index_name_trigrams-TrigramsCover, length-index_name_trigrams,
}
use xgraph.Indexes.Update.{
  remove_node_references, remove_all, install_node, install_nodes, node_record, remove_path,
}
use xgraph.Indexes.Update.Frame.{SameNames, SameNames-trans, remove_symbol_references-SameNames}
use xgraph.Indexes.Update.Replace.{remove_path-EdgesMatch}
use xgraph.Map.Lists.{push_at}

-- The tables for edges, symbols and trigrams agree.
pub record WellFormed (idx : HotIndexes) : Type 0 where
  pub edges : EdgesMatch idx
  pub symbols : SymbolsMatch idx
  pub cover : TrigramsCover idx

pub TrigramsCover-same :
    {idx idx' : HotIndexes} → SameNames idx idx' → TrigramsCover idx → TrigramsCover idx'
TrigramsCover-same {idx} {idx'} s h = record {
  numbered = λ name i p. ground (arith, s.names, s.name_to_idx, p, h.numbered name i);
  posted = λ name i w p q. ground (arith, s.trigrams, s.name_to_idx, p, q, h.posted name i w);
}

-- symbols, with what `KeysMatch` reads of the names, moved to another record
pub SymbolsMatch-same :
    {idx idx' : HotIndexes}
    → idx'.symbols ≡ idx.symbols
    → idx'.symbols_by_name ≡ idx.symbols_by_name
    → idx'.name_to_idx ≡ idx.name_to_idx
    → SymbolsMatch idx
    → SymbolsMatch idx'
SymbolsMatch-same {idx} {idx'} s b n h = record {
  keys = record {
    indexed = λ k. ground (arith, s, b, h.keys.indexed k);
    named = λ name k p. ground (arith, b, p, h.keys.named name k);
    known = λ name p. ground (arith, b, n, p, h.keys.known name);
  };
  filled = rw s h.filled;
}

-- removal
remove_node_references-SameNames :
    (idx : HotIndexes) (id : NodeId) → SameNames idx (remove_node_references idx id)
unfolding remove_node_references remove_edges_for_node
remove_node_references-SameNames idx id =
    let unlinked = remove_edges_for_node (record idx { nodes = remove idx.nodes id }) id in
    let h = remove_symbol_references-SameNames unlinked id in
    record { names = h.names; name_to_idx = h.name_to_idx; trigrams = h.trigrams }

remove_node_references-SymbolsMatch :
    (idx : HotIndexes) (id : NodeId)
    → SymbolsMatch idx
    → SymbolsMatch (remove_node_references idx id)
unfolding remove_node_references remove_edges_for_node
remove_node_references-SymbolsMatch idx id h = remove_symbol_references-SymbolsMatch _ id (
    SymbolsMatch-same {idx = idx}
      {idx' = remove_edges_for_node (record idx { nodes = remove idx.nodes id }) id} refl refl refl
      h)

remove_all-rest :
    (idx : HotIndexes) (ids : List NodeId)
    → SymbolsMatch idx
    → SymbolsMatch (remove_all idx ids) × SameNames idx (remove_all idx ids)
unfolding remove_all
remove_all-rest idx [] h = (h, record { names = refl; name_to_idx = refl; trigrams = refl })
remove_all-rest idx (id ∷ ids) h =
    let (s, n) =
      remove_all-rest (remove_node_references idx id) ids
        (remove_node_references-SymbolsMatch idx id h) in
    (s, SameNames-trans (remove_node_references-SameNames idx id) n)

module _ (idx : HotIndexes) (path : FilePath) where
  without_file : HotIndexes
  without_file = record idx { files = remove idx.files path }

  pub remove_path-rest :
      SymbolsMatch idx → SymbolsMatch (remove_path idx path) × SameNames idx (remove_path idx path)
  unfolding remove_path without_file
  remove_path-rest h =
      let (s, n) =
        remove_all-rest without_file (get_list idx.files path)
          (SymbolsMatch-same {idx = idx} {idx' = without_file} refl refl refl h) in
      (s, record { names = n.names; name_to_idx = n.name_to_idx; trigrams = n.trigrams })

  -- Dropping a file keeps the tables in agreement.
  pub remove_path-WellFormed : WellFormed idx → WellFormed (remove_path idx path)
  remove_path-WellFormed h =
      let (s, n) = remove_path-rest h.symbols in
      record {
        edges = remove_path-EdgesMatch idx path h.edges;
        symbols = s;
        cover = TrigramsCover-same n h.cover;
      }

-- installation
abbrev pub names_count : HotIndexes → ℕ
names_count idx = length idx.names

abbrev pub Grown : HotIndexes → ℕ → HotIndexes → Type 0
Grown idx n idx' = TrigramsCover idx' × (names_count idx' ≤ names_count idx + n)

register_symbol-Grown :
    (idx : HotIndexes) (key : SymbolKey) (id : NodeId)
    → names_count idx < 2 ^ 32
    → TrigramsCover idx
    → Grown idx 1 (register_symbol idx key id)
unfolding register_symbol
register_symbol-Grown idx key id room h =
    let idx' = record idx {
      symbols = push_at idx.symbols key id;
      symbols_by_name = push_at idx.symbols_by_name key.name key;
    } in
    (
      index_name_trigrams-TrigramsCover idx' key.name room
          (record { numbered = h.numbered; posted = h.posted }),
      length-index_name_trigrams idx' key.name,
    )

module _ (idx : HotIndexes) (name qname kind : Text) (id : NodeId) where
  abbrev first_key : SymbolKey
  first_key = record { name = name; kind = kind }

  abbrev second_key : SymbolKey
  second_key = record { name = qname; kind = kind }

  pub register_node_symbols-Grown :
      names_count idx + 2 ≤ 2 ^ 32
      → TrigramsCover idx
      → Grown idx 2 (register_node_symbols idx name qname kind id)
  unfolding register_node_symbols
  register_node_symbols-Grown room h =
      let once = register_symbol-Grown idx first_key id (omega arith) h in
      elim (Bool-cases (qname == name)) [
        | inl same ↦ rw same (once.0, omega (arith, once.1))
        | inr other ↦
            let twice =
              register_symbol-Grown (register_symbol idx first_key id) second_key id
                (omega (arith, once.1)) once.0 in
            rw other (twice.0, omega (arith, once.1, twice.1))
      ]

  pub register_node_symbols-SymbolsMatch :
      SymbolsMatch idx → SymbolsMatch (register_node_symbols idx name qname kind id)
  unfolding register_node_symbols
  register_node_symbols-SymbolsMatch h =
      let once = register_symbol-SymbolsMatch idx first_key id h in
      elim (Bool-cases (qname == name)) [
        | inl same ↦ rw same once
        | inr other ↦
            rw other
              (register_symbol-SymbolsMatch (register_symbol idx first_key id) second_key id once)
      ]

pub install_nodes-rest :
    (hash : ContentHash) (path : FilePath) (nodes : List NodeFact) (idx : HotIndexes)
    → names_count idx + 2 * length nodes ≤ 2 ^ 32
    → SymbolsMatch idx
    → TrigramsCover idx
    → SymbolsMatch (install_nodes hash path nodes idx)
      × TrigramsCover (install_nodes hash path nodes idx)
unfolding install_nodes install_node
install_nodes-rest hash path [] idx room s c = (s, c)
install_nodes-rest hash path (n ∷ nodes) idx room s c =
    let id = active_node_id hash n.local_node_id in
    let idx' = record idx { nodes = insert idx.nodes id (node_record id path n) } in
    let (c', grown) =
      register_node_symbols-Grown idx' n.name n.qname n.kind id (omega (arith, room))
        (record { numbered = c.numbered; posted = c.posted }) in
    install_nodes-rest hash path nodes (register_node_symbols idx' n.name n.qname n.kind id)
      (omega (arith, room, grown))
      (register_node_symbols-SymbolsMatch idx' n.name n.qname n.kind id
        (SymbolsMatch-same {idx = idx} {idx' = idx'} refl refl refl s))
      c'
