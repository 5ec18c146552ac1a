-- ===== src/Indexes/Symbols/Consistent.antt =====
-- `symbols` and `symbols_by_name` hold the same keys, and no key is left without ids.
use xgraph.Prelude.{◌≡◌, true, ◌==◌, ==_iff, contains, if◌then◌else◌, arith}
use xgraph.Text.{Text, text_key, trigram_key}
use xgraph.Map.{contains_key}
use xgraph.Map.Lists.{
  get_list, push_at, push_at_lem, push_at-contains_key, push_at-NoEmpty, NoEmpty,
}
use xgraph.Indexes.State.{HotIndexes, NodeId, SymbolKey, symbol_key_key}
use xgraph.Indexes.Symbols.{register_symbol, lookup_symbol}
use xgraph.Indexes.Symbols.Trigrams.{index_name_trigrams-SameSymbols, index_name_trigrams-knows}

-- what holds of the keys, also while some keys have no ids
pub record KeysMatch (idx : HotIndexes) : Type 0 where
  pub indexed :
      (key : SymbolKey)
      → contains (get_list idx.symbols_by_name key.name) key ≡ contains_key idx.symbols key
  pub named :
      (name : Text) (key : SymbolKey)
      → contains (get_list idx.symbols_by_name name) key ≡ true
      → key.name ≡ name
  pub known :
      (name : Text)
      → contains_key idx.symbols_by_name name ≡ true
      → contains_key idx.name_to_idx name ≡ true

pub record SymbolsMatch (idx : HotIndexes) : Type 0 where
  pub keys : KeysMatch idx
  pub filled : NoEmpty idx.symbols

register_symbol_parts :
    (idx : HotIndexes) (key : SymbolKey) (id : NodeId)
    → ((register_symbol idx key id).symbols ≡ push_at idx.symbols key id)
      × ((register_symbol idx key id).symbols_by_name ≡ push_at idx.symbols_by_name key.name key)
unfolding register_symbol
register_symbol_parts idx key id =
    let same =
      index_name_trigrams-SameSymbols
        (record idx {
          symbols = push_at idx.symbols key id;
          symbols_by_name = push_at idx.symbols_by_name key.name key;
        })
        key.name in
    (same.symbols, same.symbols_by_name)

register_symbol-knows :
    (idx : HotIndexes) (key : SymbolKey) (id : NodeId) (name : Text)
    → contains_key (register_symbol idx key id).name_to_idx name
      ≡ (if key.name == name then true else contains_key idx.name_to_idx name)
unfolding register_symbol
register_symbol-knows idx key id name =
    index_name_trigrams-knows
      (record idx {
        symbols = push_at idx.symbols key id;
        symbols_by_name = push_at idx.symbols_by_name key.name key;
      })
      key.name name

-- A symbol's ids after one more was registered.
pub lookup_symbol-register_symbol :
    (idx : HotIndexes) (key : SymbolKey) (id : NodeId) (key' : SymbolKey) (id' : NodeId)
    → contains (lookup_symbol (register_symbol idx key id) key') id' ≡ (
        if key == key'
        then (if id == id' then true else contains (lookup_symbol idx key') id')
        else contains (lookup_symbol idx key') id')
unfolding lookup_symbol
lookup_symbol-register_symbol idx key id key' id' =
    ground (arith, (register_symbol_parts idx key id).0, push_at_lem idx.symbols key id key' id')

pub register_symbol-SymbolsMatch :
    (idx : HotIndexes) (key : SymbolKey) (id : NodeId)
    → SymbolsMatch idx
    → SymbolsMatch (register_symbol idx key id)
register_symbol-SymbolsMatch idx key id h =
    let (symbols, by_name) = register_symbol_parts idx key id in
    record {
      keys = record {
        indexed = λ k. ground (
          arith,
          symbols,
          by_name,
          push_at_lem idx.symbols_by_name key.name key k.name k,
          push_at-contains_key idx.symbols key id k,
          h.keys.indexed k,
          ==_iff key k,
          ==_iff key.name k.name,
        );
        named = λ name k p. ground (
          arith,
          by_name,
          push_at_lem idx.symbols_by_name key.name key name k,
          h.keys.named name k,
          ==_iff key k,
          ==_iff key.name name,
        );
        known = λ name p. ground (
          arith,
          by_name,
          push_at-contains_key idx.symbols_by_name key.name key name,
          register_symbol-knows idx key id name,
          h.keys.known name,
        );
      };
      filled = rw symbols (push_at-NoEmpty idx.symbols key id h.filled);
    }
