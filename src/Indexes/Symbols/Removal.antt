-- ===== src/Indexes/Symbols/Removal.antt =====
-- What `unregister_symbol` and `remove_symbol_references` leave.
use xgraph.Prelude.{
  ◌≡◌, refl, Bool, true, false, not, none, some, List, [], ◌∷◌, ◌==◌, ==_iff, contains, retain,
  contains-retain, Option-cases, Bool-cases, inl, inr, if◌then◌else◌, is_empty, arith,
  is_empty-contains,
}
use xgraph.Text.{text_key}
use xgraph.Map.{
  Map, get, insert, contains_key, get-insert, get-remove, map_values, get-map_values, iter, find,
  find-iter, All, All-iter,
}
use xgraph.Map.Lists.{prune_lem, prune-contains_key}
use xgraph.Indexes.State.{HotIndexes, NodeId, SymbolKey, symbol_key_key}
use xgraph.Indexes.Symbols.{
  drop_key, unregister_symbol, emptied, drop_keys, remove_symbol_references, lookup_symbol,
}
use xgraph.Indexes.Symbols.Consistent.{KeysMatch, SymbolsMatch}

drop_key-KeysMatch :
    (idx : HotIndexes) (key : SymbolKey) → KeysMatch idx → KeysMatch (drop_key idx key)
unfolding drop_key
drop_key-KeysMatch idx key h = record {
  indexed = λ k. ground (
    arith,
    prune_lem idx.symbols_by_name key.name key k.name k,
    get-remove idx.symbols key k,
    h.indexed k,
    ==_iff key k,
    ==_iff k key,
    ==_iff key.name k.name,
  );
  named =
      λ name k p. ground (arith, prune_lem idx.symbols_by_name key.name key name k, h.named name k);
  known = λ name p.
      ground (arith, prune-contains_key idx.symbols_by_name key.name key name, h.known name);
}

drop_keys-KeysMatch :
    (idx : HotIndexes) (keys : List SymbolKey) → KeysMatch idx → KeysMatch (drop_keys idx keys)
unfolding drop_keys
drop_keys-KeysMatch idx [] h = h
drop_keys-KeysMatch idx (key ∷ keys) h =
    drop_keys-KeysMatch (drop_key idx key) keys (drop_key-KeysMatch idx key h)

get-drop_keys :
    (idx : HotIndexes) (keys : List SymbolKey) (k : SymbolKey)
    → get (drop_keys idx keys).symbols k ≡ (if contains keys k then none else get idx.symbols k)
unfolding drop_keys drop_key contains
get-drop_keys idx [] k = refl
get-drop_keys idx (key ∷ keys) k =
    ground (arith, get-drop_keys (drop_key idx key) keys k, get-remove idx.symbols key k)

-- `emptied` of the entries of a map lists exactly the keys without ids.
emptied_sound :
    (m : Map SymbolKey (List NodeId)) (l : List (SymbolKey × List NodeId)) (k : SymbolKey)
    → All (λ e. get m e.0 ≡ some e.1) l
    → contains (emptied l) k ≡ true
    → get m k ≡ some []
unfolding emptied contains
emptied_sound m [] k h p = ground arith
emptied_sound m ((j, []) ∷ l) k h p = ground (arith, h.0, ==_iff j k, emptied_sound m l k h.1)
emptied_sound m ((j, id ∷ ids) ∷ l) k h p = emptied_sound m l k h.1 p

emptied_complete :
    (l : List (SymbolKey × List NodeId)) (k : SymbolKey)
    → find k l ≡ some []
    → contains (emptied l) k ≡ true
unfolding emptied contains find
emptied_complete [] k p = ground arith
emptied_complete ((j, []) ∷ l) k p = ground (arith, emptied_complete l k)
emptied_complete ((j, id ∷ ids) ∷ l) k p = ground (arith, emptied_complete l k)

KeysMatch-symbols :
    (idx : HotIndexes) (m : Map SymbolKey (List NodeId))
    → ((k : SymbolKey) → contains_key m k ≡ contains_key idx.symbols k)
    → KeysMatch idx
    → KeysMatch (record idx { symbols = m })
KeysMatch-symbols idx m same h = record {
  indexed = λ k. ground (arith, same k, h.indexed k);
  named = h.named;
  known = h.known;
}

module _ (idx : HotIndexes) (id : NodeId) where
  abbrev kept : NodeId → Bool
  kept candidate = not (candidate == id)

  abbrev retained : Map SymbolKey (List NodeId)
  retained = map_values (retain kept) idx.symbols

  retained-contains_key : (k : SymbolKey) → contains_key retained k ≡ contains_key idx.symbols k
  retained-contains_key k = ground (arith, get-map_values (retain kept) idx.symbols k)

  -- the ids of a key after `remove_symbol_references`
  get-remove_symbol_references :
      (k : SymbolKey)
      → get (remove_symbol_references idx id).symbols k
        ≡ (if contains (emptied (iter retained)) k then none else get retained k)
  unfolding remove_symbol_references
  get-remove_symbol_references k =
      get-drop_keys (record idx { symbols = retained }) (emptied (iter retained)) k

  -- The node is gone from every symbol, and no other id is.
  pub remove_symbol_references_lem :
      (k : SymbolKey) (x : NodeId)
      → contains (lookup_symbol (remove_symbol_references idx id) k) x
        ≡ (if x == id then false else contains (lookup_symbol idx k) x)
  unfolding lookup_symbol contains
  remove_symbol_references_lem k x = elim (Option-cases (get idx.symbols k)) [
    | inl absent ↦
        ground (arith, get-remove_symbol_references k, get-map_values (retain kept) idx.symbols k)
    | inr (l, found) ↦ ground (
      arith,
      get-remove_symbol_references k,
      get-map_values (retain kept) idx.symbols k,
      emptied_sound retained (iter retained) k (All-iter retained),
      contains-retain kept l x,
    )
  ]

  pub remove_symbol_references-SymbolsMatch :
      SymbolsMatch idx → SymbolsMatch (remove_symbol_references idx id)
  remove_symbol_references-SymbolsMatch h = record {
    keys =
        unfold remove_symbol_references in
        drop_keys-KeysMatch (record idx { symbols = retained }) (emptied (iter retained))
          (KeysMatch-symbols idx retained retained-contains_key h.keys);
    filled = λ k l p. unused k l p;
  }
    where
      unused :
          (k : SymbolKey) (l : List NodeId)
          → get (remove_symbol_references idx id).symbols k ≡ some l
          → is_empty l ≡ false
      unused k [] p = ground (
        arith,
        p,
        get-remove_symbol_references k,
        find-iter retained k,
        emptied_complete (iter retained) k,
      )
      unused k (x ∷ l) p = refl

module _ (idx : HotIndexes) (key : SymbolKey) (id : NodeId) where
  -- The id is gone from the key, and nothing else is.
  pub unregister_symbol_lem :
      (k : SymbolKey) (x : NodeId)
      → contains (lookup_symbol (unregister_symbol idx key id) k) x ≡ (
          if key == k
          then (if x == id then false else contains (lookup_symbol idx k) x)
          else contains (lookup_symbol idx k) x)
  unfolding lookup_symbol unregister_symbol drop_key contains
  unregister_symbol_lem k x = elim (Option-cases (get idx.symbols key)) [
    | inl absent ↦ ground (arith, ==_iff key k)
    | inr (l, found) ↦
        let rest = retain (λ candidate. not (candidate == id)) l in
        ground (
          arith,
          get-insert idx.symbols key rest k,
          get-remove (insert idx.symbols key rest) key k,
          contains-retain (λ candidate. not (candidate == id)) l x,
          is_empty-contains rest x,
          ==_iff key k,
        )
  ]

  unregister_absent : get idx.symbols key ≡ none → unregister_symbol idx key id ≡ idx
  unfolding unregister_symbol
  unregister_absent absent = rw (absent, unregister_symbol)

  module _ (l : List NodeId) (found : get idx.symbols key ≡ some l) where
    abbrev rest : List NodeId
    rest = retain (λ candidate. not (candidate == id)) l

    abbrev shrunk : HotIndexes
    shrunk = record idx { symbols = insert idx.symbols key rest }

    unregister_found :
        unregister_symbol idx key id ≡ (if is_empty rest then drop_key shrunk key else shrunk)
    unfolding unregister_symbol
    unregister_found = rw (found, unregister_symbol)

    shrunk-KeysMatch : KeysMatch idx → KeysMatch shrunk
    shrunk-KeysMatch h =
        KeysMatch-symbols idx (insert idx.symbols key rest)
          (λ k. ground (arith, get-insert idx.symbols key rest k, ==_iff key k, found)) h

    found-SymbolsMatch : SymbolsMatch idx → SymbolsMatch (unregister_symbol idx key id)
    found-SymbolsMatch h = elim (Bool-cases (is_empty rest)) [
      | inl gone ↦
          rw (unregister_found, gone)
            (record {
              keys = drop_key-KeysMatch shrunk key (shrunk-KeysMatch h.keys);
              filled = λ k m p.
                  unfold drop_key in
                  ground (
                    arith,
                    p,
                    get-remove (insert idx.symbols key rest) key k,
                    get-insert idx.symbols key rest k,
                    h.filled k m,
                  );
            })
      | inr left ↦
          rw (unregister_found, left)
            (record {
              keys = shrunk-KeysMatch h.keys;
              filled =
                  λ k m p. ground (arith, p, left, get-insert idx.symbols key rest k, h.filled k m);
            })
    ]

  -- Unregistering a symbol keeps the two symbol tables in agreement, with no key left without nodes.
  pub unregister_symbol-SymbolsMatch :
      SymbolsMatch idx → SymbolsMatch (unregister_symbol idx key id)
  unregister_symbol-SymbolsMatch h = elim (Option-cases (get idx.symbols key)) [
    | inl absent ↦ rw (unregister_absent absent) h
    | inr (l, found) ↦ found-SymbolsMatch l found h
  ]
