-- ===== src/Indexes/State.antt =====
-- indexes.rs: the records, `HotIndexes::new` and `clear`, and the plain readers and writers. Locks and
-- shards are not modelled: each method runs alone. A path is its text.
use xgraph.Prelude.{
  ℕ, ◌+◌, ◌≡◌, Bool, true, ◌&&◌, Option, List, [], ◌∷◌, Key, ◌↔◌, list_beq, list_beq_iff, arith,
  length, nat_key,
}
use xgraph.Text
use xgraph.Text.{Text, text_key, trigram_key}
use xgraph.Map
use xgraph.Map.{Map, get, insert, remove, iter}
use xgraph.Map.Lists.{get_list}

abbrev pub NodeId : Type 0
NodeId = Text

abbrev pub FilePath : Type 0
FilePath = Text

pub record NodeRecord : Type 0 where
  pub id : NodeId
  pub path : FilePath
  pub kind : Text
  pub name : Text
  pub qname : Text

pub record SymbolKey : Type 0 where
  pub name : Text
  pub kind : Text

unfoldable pub symbol_key_beq : SymbolKey → SymbolKey → Bool
symbol_key_beq a b = list_beq a.name b.name && list_beq a.kind b.kind

pub symbol_key_beq_iff : (a b : SymbolKey) → (symbol_key_beq a b ≡ true) ↔ (a ≡ b)
unfolding symbol_key_beq
symbol_key_beq_iff a b = ground (arith, list_beq_iff a.name b.name, list_beq_iff a.kind b.kind)

instance abbrev pub symbol_key_key : Key SymbolKey
symbol_key_key = record { same = symbol_key_beq; same_iff = symbol_key_beq_iff }

pub data SearchMode : Type 0 where
  exact prefix contains : SearchMode

pub record SearchQuery : Type 0 where
  pub name : Text
  pub mode : SearchMode
  pub kind : Option Text
  pub path_prefix : Option Text
  pub limit : ℕ

pub record HotIndexes : Type 0 where
  pub nodes : Map NodeId NodeRecord
  pub symbols : Map SymbolKey (List NodeId)
  pub symbols_by_name : Map Text (List SymbolKey)
  pub trigrams : Map Text.Trigram (List ℕ)
  pub names : List Text
  pub name_to_idx : Map Text ℕ
  pub files : Map FilePath (List NodeId)
  pub callers : Map NodeId (List NodeId)
  pub callees : Map NodeId (List NodeId)

abbrev pub new : HotIndexes
new = record {
  nodes = Map.empty;
  symbols = Map.empty;
  symbols_by_name = Map.empty;
  trigrams = Map.empty;
  names = [];
  name_to_idx = Map.empty;
  files = Map.empty;
  callers = Map.empty;
  callees = Map.empty;
}

abbrev pub clear : HotIndexes → HotIndexes
clear idx = record idx {
  nodes = Map.empty;
  symbols = Map.empty;
  symbols_by_name = Map.empty;
  trigrams = Map.empty;
  names = [];
  name_to_idx = Map.empty;
  files = Map.empty;
  callers = Map.empty;
  callees = Map.empty;
}

unfoldable pub insert_node : HotIndexes → NodeRecord → HotIndexes
insert_node idx r = record idx { nodes = insert idx.nodes r.id r }

unfoldable pub get_node : HotIndexes → NodeId → Option NodeRecord
get_node idx id = get idx.nodes id

unfoldable pub remove_node : HotIndexes → NodeId → HotIndexes × Option NodeRecord
remove_node idx id = (record idx { nodes = remove idx.nodes id }, get idx.nodes id)

unfoldable pub insert_file : HotIndexes → FilePath → List NodeId → HotIndexes
insert_file idx path ids = record idx { files = insert idx.files path ids }

unfoldable pub nodes_in_file : HotIndexes → FilePath → List NodeId
nodes_in_file idx path = get_list idx.files path

unfoldable pub remove_file : HotIndexes → FilePath → HotIndexes × List NodeId
remove_file idx path = (record idx { files = remove idx.files path }, get_list idx.files path)

-- the sum over the entries of `callees`
unfoldable pub total : List (NodeId × List NodeId) → ℕ
total [] = 0
total ((_, targets) ∷ rest) = length targets + total rest

unfoldable pub file_count : HotIndexes → ℕ
file_count idx = length (iter idx.files)

unfoldable pub node_count : HotIndexes → ℕ
node_count idx = length (iter idx.nodes)

unfoldable pub symbol_count : HotIndexes → ℕ
symbol_count idx = length (iter idx.symbols)

unfoldable pub call_edge_count : HotIndexes → ℕ
unfolding total
call_edge_count idx = total (iter idx.callees)
