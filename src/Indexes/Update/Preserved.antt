-- ===== src/Indexes/Update/Preserved.antt =====
-- A whole update keeps the tables in agreement, from the empty indexes on.
use Prim.Native.Nat.{◌^◌}
use xgraph.Prelude.{
  ℕ, ◌+◌, ◌*◌, ◌≤◌, ◌≡◌, refl, List, [], ◌∷◌, arith, length, Bool-cases, inl, inr, contains,
}
use xgraph.Text.{text_key}
use xgraph.Map.{insert, get-empty}
use xgraph.Cozo.Facts.{FileUpdate, EdgeFact}
use xgraph.Indexes.State.{HotIndexes, NodeId, FilePath, SymbolKey, symbol_key_key, new}
use xgraph.Indexes.Edges.{add_call_edge, callees_of, callers_of}
use xgraph.Indexes.Edges.Symmetric.{EdgesMatch, add_call_edge-EdgesMatch}
use xgraph.Indexes.Update.{
  install_nodes, ids_of, set_file, wire_edges, is_hot_traversal_edge, remove_path,
  apply_file_update,
}
use xgraph.Indexes.Update.Frame.{wire_edges-SameFacts, install_nodes-files}
use xgraph.Indexes.Update.Replace.{remove_path-EdgesMatch}
use xgraph.Indexes.Update.Invariant.{
  WellFormed, TrigramsCover-same, SymbolsMatch-same, remove_path-rest, install_nodes-rest,
  names_count,
}

pub EdgesMatch-same :
    {idx idx' : HotIndexes}
    → idx'.callees ≡ idx.callees
    → idx'.callers ≡ idx.callers
    → EdgesMatch idx
    → EdgesMatch idx'
unfolding callees_of callers_of
EdgesMatch-same {idx} {idx'} out inn h = record {
  converse = λ a b. ground (arith, out, inn, h.converse a b);
  callees_filled = rw out h.callees_filled;
  callers_filled = rw inn h.callers_filled;
}

pub wire_edges-EdgesMatch :
    (edges : List EdgeFact) (idx : HotIndexes) → EdgesMatch idx → EdgesMatch (wire_edges edges idx)
unfolding wire_edges
wire_edges-EdgesMatch [] idx h = h
wire_edges-EdgesMatch (edge ∷ edges) idx h = elim (Bool-cases (is_hot_traversal_edge edge.kind)) [
  | inl hot ↦ rw hot (
      wire_edges-EdgesMatch edges (add_call_edge idx edge.source_node_id edge.target_node_id)
        (add_call_edge-EdgesMatch idx edge.source_node_id edge.target_node_id h))
  | inr cold ↦ rw cold (wire_edges-EdgesMatch edges idx h)
]

wire_edges-WellFormed :
    (edges : List EdgeFact) (idx : HotIndexes) → WellFormed idx → WellFormed (wire_edges edges idx)
wire_edges-WellFormed edges idx h =
    let same = wire_edges-SameFacts edges idx in
    record {
      edges = wire_edges-EdgesMatch edges idx h.edges;
      symbols =
          SymbolsMatch-same {idx = idx} {idx' = wire_edges edges idx} same.symbols
            same.symbols_by_name same.same_names.name_to_idx h.symbols;
      cover = TrigramsCover-same same.same_names h.cover;
    }

set_file-WellFormed :
    (idx : HotIndexes) (path : FilePath) (ids : List NodeId)
    → WellFormed idx
    → WellFormed (set_file idx path ids)
unfolding set_file
set_file-WellFormed idx path [] h = h
set_file-WellFormed idx path (id ∷ ids) h =
    let idx' = record idx { files = insert idx.files path (id ∷ ids) } in
    record {
      edges = EdgesMatch-same {idx = idx} {idx' = idx'} refl refl h.edges;
      symbols = SymbolsMatch-same {idx = idx} {idx' = idx'} refl refl refl h.symbols;
      cover = record { numbered = h.cover.numbered; posted = h.cover.posted };
    }

-- Applying an update to consistent indexes leaves them consistent, if the names that it can add fit
-- the 32-bit numbering of names.
pub apply_file_update-WellFormed :
    (idx : HotIndexes) (update : FileUpdate)
    → names_count idx + 2 * length update.nodes ≤ 2 ^ 32
    → WellFormed idx
    → WellFormed (apply_file_update idx update)
unfolding apply_file_update
apply_file_update-WellFormed idx update room h =
    let path = update.path in
    let hash = update.content_hash in
    let cleared = remove_path idx path in
    let (s, n) = remove_path-rest idx path h.symbols in
    let (s', c') =
      install_nodes-rest hash path update.nodes cleared (ground (arith, room, n.names)) s
        (TrigramsCover-same n h.cover) in
    let (_, out, inn) = install_nodes-files hash path update.nodes cleared in
    wire_edges-WellFormed update.edges
      (set_file (install_nodes hash path update.nodes cleared) path (ids_of hash update.nodes))
      (set_file-WellFormed (install_nodes hash path update.nodes cleared) path
        (ids_of hash update.nodes)
        (record {
          edges =
              EdgesMatch-same {idx = cleared} {idx' = install_nodes hash path update.nodes cleared}
                out inn (remove_path-EdgesMatch idx path h.edges);
          symbols = s';
          cover = c';
        }))

pub new-WellFormed : WellFormed new
unfolding callees_of callers_of contains
new-WellFormed = record {
  edges = record {
    converse = λ a b. ground (arith, get-empty {V = List NodeId} a, get-empty {V = List NodeId} b);
    callees_filled = λ k l p. ground (arith, get-empty {V = List NodeId} k, p);
    callers_filled = λ k l p. ground (arith, get-empty {V = List NodeId} k, p);
  };
  symbols = record {
    keys = record {
      indexed =
          λ k. ground (arith, get-empty {V = List SymbolKey} k.name, get-empty {V = List NodeId} k);
      named = λ name k p. absurd (ground (arith, get-empty {V = List SymbolKey} name, p));
      known = λ name p. absurd (ground (arith, get-empty {V = List SymbolKey} name, p));
    };
    filled = λ k l p. ground (arith, get-empty {V = List NodeId} k, p);
  };
  cover = record {
    numbered = λ name i p. absurd (ground (arith, get-empty {V = ℕ} name, p));
    posted = λ name i w p q. absurd (ground (arith, get-empty {V = ℕ} name, p));
  };
}
