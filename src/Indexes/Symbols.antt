-- ===== src/Indexes/Symbols.antt =====
-- indexes.rs: the symbol indexes and the trigram index over names.
pub mod Consistent
pub mod Removal
pub mod Trigrams
use Prim.Native.Nat.{◌^◌}
use xgraph.Prelude.{
  ℕ, ◌%◌, Bool, true, false, not, ◌&&◌, Option, none, some, List, [], ◌∷◌, ◌++◌, Key, ◌==◌,
  contains, retain, if◌then◌else◌, length, is_empty, nat_key, ltb,
}
use xgraph.Text.{Text, text_key, Trigram, trigram_key, windows, lower}
use xgraph.Map.{Map, get, insert, remove, contains_key, map_values, iter}
use xgraph.Map.Lists.{get_list, push_at, prune}
use xgraph.Indexes.State.{NodeId, HotIndexes, SymbolKey, symbol_key_key}

-- `x as u32`
unfoldable pub as_u32 : ℕ → ℕ
as_u32 x = x % 2 ^ 32

-- the loop of `index_name_trigrams`, with the set `seen` of windows that it has met
unfoldable pub post_windows :
    ℕ → List Trigram → List Trigram → Map Trigram (List ℕ) → Map Trigram (List ℕ)
post_windows id seen [] m = m
post_windows id seen (w ∷ ws) m =
    if contains seen w
    then post_windows id seen ws m
    else post_windows id (w ∷ seen) ws (insert m w (get_list m w ++ id ∷ []))

unfoldable pub index_name_trigrams : HotIndexes → Text → HotIndexes
unfolding as_u32 post_windows
index_name_trigrams idx name =
    if contains_key idx.name_to_idx name
    then idx
    else let id = as_u32 (length idx.names) in
      let idx' = record idx {
        names = idx.names ++ name ∷ [];
        name_to_idx = insert idx.name_to_idx name id;
      } in
      if ltb (length name) 3
      then idx'
      else record idx' { trigrams = post_windows id [] (windows (lower name)) idx.trigrams }

unfoldable pub register_symbol : HotIndexes → SymbolKey → NodeId → HotIndexes
unfolding index_name_trigrams
register_symbol idx key node_id =
    index_name_trigrams
      (record idx {
        symbols = push_at idx.symbols key node_id;
        symbols_by_name = push_at idx.symbols_by_name key.name key;
      })
      key.name

unfoldable pub register_node_symbols : HotIndexes → Text → Text → Text → NodeId → HotIndexes
register_node_symbols idx name qname kind node_id =
    let idx' = register_symbol idx (record { name = name; kind = kind }) node_id in
    if qname == name
    then idx'
    else register_symbol idx' (record { name = qname; kind = kind }) node_id

unfoldable pub lookup_symbol : HotIndexes → SymbolKey → List NodeId
lookup_symbol idx key = get_list idx.symbols key

-- the loop of `lookup_symbol_by_name`
unfoldable pub ids_of_keys : HotIndexes → List SymbolKey → List NodeId
ids_of_keys idx [] = []
ids_of_keys idx (key ∷ keys) = get_list idx.symbols key ++ ids_of_keys idx keys

unfoldable pub lookup_symbol_by_name : HotIndexes → Text → List NodeId
unfolding ids_of_keys
lookup_symbol_by_name idx name = elim (get idx.symbols_by_name name) [
  | none ↦ []
  | some keys ↦ ids_of_keys idx keys
]

-- a key without ids goes, from its name's list of keys too
unfoldable pub drop_key : HotIndexes → SymbolKey → HotIndexes
drop_key idx key = record idx {
  symbols = remove idx.symbols key;
  symbols_by_name = prune idx.symbols_by_name key.name key;
}

unfoldable pub unregister_symbol : HotIndexes → SymbolKey → NodeId → HotIndexes
unfolding drop_key
unregister_symbol idx key node_id = elim (get idx.symbols key) [
  | none ↦ idx
  | some ids ↦
      let rest = retain (λ id. not (id == node_id)) ids in
      let idx' = record idx { symbols = insert idx.symbols key rest } in
      if is_empty rest then drop_key idx' key else idx'
]

-- `emptied_keys`
unfoldable pub emptied : List (SymbolKey × List NodeId) → List SymbolKey
emptied [] = []
emptied ((key, ids) ∷ rest) = if is_empty ids then key ∷ emptied rest else emptied rest

unfoldable pub drop_keys : HotIndexes → List SymbolKey → HotIndexes
unfolding drop_key
drop_keys idx [] = idx
drop_keys idx (key ∷ keys) = drop_keys (drop_key idx key) keys

unfoldable pub remove_symbol_references : HotIndexes → NodeId → HotIndexes
unfolding drop_keys emptied
remove_symbol_references idx id =
    let symbols = map_values (retain (λ candidate. not (candidate == id))) idx.symbols in
    drop_keys (record idx { symbols = symbols }) (emptied (iter symbols))
