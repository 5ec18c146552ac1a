-- ===== src/Indexes/Reload.antt =====
-- indexes.rs `reload_from_cozo`. The store is not part of this repository's code: the two queries'
-- answers are arguments.
use Prim.Native.Nat.{◌^◌}
use xgraph.Prelude.{
  ℕ, ◌+◌, ◌*◌, ◌≤◌, ◌≡◌, refl, Option, none, some, List, [], ◌∷◌, ◌++◌, get_elem?, arith, length,
}
use xgraph.Text.{Text, text_key}
use xgraph.Map.{insert}
use xgraph.Map.Lists.{get_list}
use xgraph.Indexes.State.{HotIndexes, NodeId, clear, new}
use xgraph.Indexes.Edges.{add_call_edge}
use xgraph.Indexes.Edges.Symmetric.{add_call_edge-EdgesMatch}
use xgraph.Indexes.Symbols.{register_node_symbols}
use xgraph.Indexes.Update.Frame.{register_node_symbols-SameGraph}
use xgraph.Indexes.Update.Invariant.{
  WellFormed, SymbolsMatch-same, register_node_symbols-Grown, register_node_symbols-SymbolsMatch,
  names_count,
}
use xgraph.Indexes.Update.Preserved.{EdgesMatch-same, new-WellFormed}

-- `cozo::DataValue`, of which the code tells only strings apart
pub data DataValue : Type 0 where
  str : Text → DataValue
  other : DataValue

abbrev pub Row : Type 0
Row = List DataValue

-- the answer of `run_read`
pub data Answer : Type 0 where
  rows : List Row → Answer
  failed : Text → Answer

unfoldable pub data_to_string : Option DataValue → Option Text
data_to_string none = none
data_to_string (some (str s)) = some s
data_to_string (some other) = none

-- `data_to_string(iter.next()).unwrap_or_default()`
unfoldable pub column : Row → ℕ → Text
unfolding data_to_string
column row i = elim (data_to_string (get_elem? row i)) [ none ↦ [] | some s ↦ s ]

-- what the loop does with a row that has an id
unfoldable pub load_node : HotIndexes → NodeId → Text → Text → Text → Text → HotIndexes
load_node idx id path kind name qname =
    register_node_symbols
      (record idx {
        nodes =
            insert idx.nodes id
              (record { id = id; path = path; kind = kind; name = name; qname = qname });
        files = insert idx.files path (get_list idx.files path ++ id ∷ []);
      })
      name qname kind id

unfoldable pub load_row : HotIndexes → Row → HotIndexes
unfolding column load_node
load_row idx row = elim (data_to_string (get_elem? row 0)) [
  | none ↦ idx
  | some node_id ↦ load_node idx node_id (column row 1) (column row 2) (column row 3) (column row 4)
]

unfoldable pub load_rows : HotIndexes → List Row → HotIndexes
unfolding load_row
load_rows idx [] = idx
load_rows idx (row ∷ rest) = load_rows (load_row idx row) rest

-- an edge's two columns; a row with anything but two strings is passed over
unfoldable pub load_ends : HotIndexes → Option Text → Option Text → HotIndexes
load_ends idx (some src) (some dst) = add_call_edge idx src dst
load_ends idx (some src) none = idx
load_ends idx none dst = idx

unfoldable pub load_edges : HotIndexes → List Row → HotIndexes
unfolding load_ends data_to_string
load_edges idx [] = idx
load_edges idx (row ∷ rest) =
    load_edges (load_ends idx (data_to_string (get_elem? row 0)) (data_to_string (get_elem? row 1)))
      rest

-- the second query, after the first
unfoldable pub reload_edges : HotIndexes → Answer → HotIndexes × Option Text
unfolding load_edges
reload_edges idx (rows edges) = (load_edges idx edges, none)
reload_edges idx (failed err) = (idx, some err)

unfoldable pub reload_from_cozo : HotIndexes → Answer → Answer → HotIndexes × Option Text
unfolding reload_edges load_rows
reload_from_cozo idx (rows nodes) edges = reload_edges (load_rows (clear idx) nodes) edges
reload_from_cozo idx (failed err) edges = (clear idx, some err)

unfoldable pub load_from_cozo : Answer → Answer → HotIndexes × Option Text
unfolding reload_from_cozo
load_from_cozo nodes edges = reload_from_cozo new nodes edges

-- the rows of an answer
abbrev pub row_count : Answer → ℕ
row_count (rows l) = length l
row_count (failed err) = 0

load_node-WellFormed :
    (idx : HotIndexes) (id path kind name qname : Text)
    → names_count idx + 2 ≤ 2 ^ 32
    → WellFormed idx
    → WellFormed (load_node idx id path kind name qname)
      × (names_count (load_node idx id path kind name qname) ≤ names_count idx + 2)
unfolding load_node
load_node-WellFormed idx id path kind name qname room h =
    let idx' = record idx {
      nodes =
          insert idx.nodes id
            (record { id = id; path = path; kind = kind; name = name; qname = qname });
      files = insert idx.files path (get_list idx.files path ++ id ∷ []);
    } in
    let same = register_node_symbols-SameGraph idx' name qname kind id in
    let (cover, grown) =
      register_node_symbols-Grown idx' name qname kind id room
        (record { numbered = h.cover.numbered; posted = h.cover.posted }) in
    (
      record {
        edges = EdgesMatch-same {idx = idx} same.callees same.callers h.edges;
        symbols =
            register_node_symbols-SymbolsMatch idx' name qname kind id
              (SymbolsMatch-same {idx = idx} {idx' = idx'} refl refl refl h.symbols);
        cover = cover;
      },
      grown,
    )

load_some-WellFormed :
    (idx : HotIndexes) (row : Row) (o : Option Text)
    → names_count idx + 2 ≤ 2 ^ 32
    → WellFormed idx
    → data_to_string (get_elem? row 0) ≡ o
    → WellFormed (load_row idx row) × (names_count (load_row idx row) ≤ names_count idx + 2)
unfolding load_row
load_some-WellFormed idx row none room h e = rw (e, load_row) (h, omega arith)
load_some-WellFormed idx row (some id) room h e =
    rw (e, load_row)
      (load_node-WellFormed idx id (column row 1) (column row 2) (column row 3) (column row 4) room
        h)

load_rows-WellFormed :
    (idx : HotIndexes) (l : List Row)
    → names_count idx + 2 * length l ≤ 2 ^ 32
    → WellFormed idx
    → WellFormed (load_rows idx l)
unfolding load_rows
load_rows-WellFormed idx [] room h = h
load_rows-WellFormed idx (row ∷ rest) room h =
    let (h', grown) = load_some-WellFormed idx row _ (omega (arith, room)) h refl in
    load_rows-WellFormed (load_row idx row) rest (omega (arith, room, grown)) h'

load_ends-EdgesMatch :
    (idx : HotIndexes) (src dst : Option Text) → WellFormed idx → WellFormed (load_ends idx src dst)
unfolding load_ends add_call_edge
load_ends-EdgesMatch idx none dst h = h
load_ends-EdgesMatch idx (some src) none h = h
load_ends-EdgesMatch idx (some src) (some dst) h = record {
  edges = add_call_edge-EdgesMatch idx src dst h.edges;
  symbols = SymbolsMatch-same {idx = idx} refl refl refl h.symbols;
  cover = record { numbered = h.cover.numbered; posted = h.cover.posted };
}

load_edges-WellFormed :
    (idx : HotIndexes) (l : List Row) → WellFormed idx → WellFormed (load_edges idx l)
unfolding load_edges
load_edges-WellFormed idx [] h = h
load_edges-WellFormed idx (row ∷ rest) h =
    load_edges-WellFormed
      (load_ends idx (data_to_string (get_elem? row 0)) (data_to_string (get_elem? row 1))) rest
      (load_ends-EdgesMatch idx (data_to_string (get_elem? row 0))
        (data_to_string (get_elem? row 1)) h)

reload_edges-WellFormed :
    (idx : HotIndexes) (edges : Answer) → WellFormed idx → WellFormed (reload_edges idx edges).0
unfolding reload_edges
reload_edges-WellFormed idx (rows l) h = load_edges-WellFormed idx l h
reload_edges-WellFormed idx (failed err) h = h

-- A reload leaves consistent indexes behind whatever was there before and whichever query fails, if
-- the names fit the 32-bit numbering.
pub reload_from_cozo-WellFormed :
    (idx : HotIndexes) (nodes edges : Answer)
    → 2 * row_count nodes ≤ 2 ^ 32
    → WellFormed (reload_from_cozo idx nodes edges).0
unfolding reload_from_cozo
reload_from_cozo-WellFormed idx (rows l) edges room =
    reload_edges-WellFormed (load_rows new l) edges
      (load_rows-WellFormed new l (omega (arith, room)) new-WellFormed)
reload_from_cozo-WellFormed idx (failed err) edges room = new-WellFormed
