-- ===== src/Indexes/Symbols/Trigrams.antt =====
-- Every indexed name is found by each of its windows.
use Prim.Native.Nat.{◌^◌}
use xgraph.Prelude.{
  ℕ, ◌<◌, ◌≤◌, ◌+◌, ◌≡◌, refl, true, false, not, ◌&&◌, ◌||◌, none, some, List, [], ◌∷◌, ◌++◌, ◌==◌,
  ==_iff, contains, Option-cases, Bool-cases, inl, inr, if◌then◌else◌, length, nat_key, ltb, arith,
  get_elem?, contains-append, get_elem?-append_last, get_elem?-append_some, length-append,
}
use xgraph.Text.{Text, text_key, Trigram, trigram_key, windows, lower}
use xgraph.Map.{Map, get, insert, contains_key, get-insert}
use xgraph.Map.Lists.{get_list}
use xgraph.Indexes.State.{HotIndexes}
use xgraph.Indexes.Symbols.{as_u32, post_windows, index_name_trigrams}

-- `names`, `name_to_idx` and `trigrams` agree.
pub record TrigramsCover (idx : HotIndexes) : Type 0 where
  pub numbered :
      (name : Text) (i : ℕ) → get idx.name_to_idx name ≡ some i → get_elem? idx.names i ≡ some name
  pub posted :
      (name : Text) (i : ℕ) (w : Trigram)
      → get idx.name_to_idx name ≡ some i
      → contains (windows (lower name)) w ≡ true
      → contains (get_list idx.trigrams w) i ≡ true

as_u32_small : (x : ℕ) → x < 2 ^ 32 → as_u32 x ≡ x
unfolding as_u32
as_u32_small x h = omega arith

-- After the loop a posting list has what it had, and the name's number at each of its windows.
post_windows_lem :
    (id : ℕ) (seen ws : List Trigram) (m : Map Trigram (List ℕ)) (w : Trigram) (i : ℕ)
    → contains (get_list (post_windows id seen ws m) w) i
      ≡ (contains (get_list m w) i || (id == i && (contains ws w && not (contains seen w))))
unfolding post_windows contains
post_windows_lem id seen [] m w i = ground arith
post_windows_lem id seen (v ∷ ws) m w i = elim (Bool-cases (contains seen v)) [
  | inl met ↦ ground (arith, post_windows_lem id seen ws m w i, ==_iff v w)
  | inr fresh ↦ ground (
    arith,
    post_windows_lem id (v ∷ seen) ws (insert m v (get_list m v ++ id ∷ [])) w i,
    get-insert m v (get_list m v ++ id ∷ []) w,
    contains-append (get_list m w) (id ∷ []) i,
    ==_iff v w,
  )
]

short_windows :
    (name : Text) (w : Trigram) → length name < 3 → contains (windows (lower name)) w ≡ false
unfolding windows lower contains
short_windows [] w h = refl
short_windows (a ∷ []) w h = refl
short_windows (a ∷ b ∷ []) w h = refl
short_windows (a ∷ b ∷ c ∷ s) w h = absurd (omega arith)

-- the posting lists after a new name was indexed
posting_lem :
    (idx : HotIndexes) (name : Text) (w : Trigram) (i : ℕ)
    → get idx.name_to_idx name ≡ none
    → contains (get_list (index_name_trigrams idx name).trigrams w) i ≡ (
        contains (get_list idx.trigrams w) i
        || (as_u32 (length idx.names) == i && contains (windows (lower name)) w))
unfolding index_name_trigrams contains
posting_lem idx name w i new = elim (Bool-cases (ltb (length name) 3)) [
  | inl short ↦ ground (arith, short_windows name w)
  | inr long ↦ ground (
    arith,
    post_windows_lem (as_u32 (length idx.names)) [] (windows (lower name)) idx.trigrams w i,
  )
]

-- the numbering after a new name was indexed
numbering_lem :
    (idx : HotIndexes) (name : Text)
    → get idx.name_to_idx name ≡ none
    → ((index_name_trigrams idx name).names ≡ idx.names ++ name ∷ [])
      × ((index_name_trigrams idx name).name_to_idx
          ≡ insert idx.name_to_idx name (as_u32 (length idx.names)))
unfolding index_name_trigrams
numbering_lem idx name new = ground arith

known_lem :
    (idx : HotIndexes) (name : Text) (i : ℕ)
    → get idx.name_to_idx name ≡ some i
    → index_name_trigrams idx name ≡ idx
unfolding index_name_trigrams
known_lem idx name i old = ground arith

pub index_name_trigrams-knows :
    (idx : HotIndexes) (name other : Text)
    → contains_key (index_name_trigrams idx name).name_to_idx other
      ≡ (if name == other then true else contains_key idx.name_to_idx other)
index_name_trigrams-knows idx name other = elim (Option-cases (get idx.name_to_idx name)) [
  | inl new ↦ ground (
    arith,
    (numbering_lem idx name new).1,
    get-insert idx.name_to_idx name (as_u32 (length idx.names)) other,
  )
  | inr (i, old) ↦ ground (arith, known_lem idx name i old, ==_iff name other)
]

-- Indexing a name, new or known, keeps the three tables in agreement.
pub index_name_trigrams-TrigramsCover :
    (idx : HotIndexes) (name : Text)
    → length idx.names < 2 ^ 32
    → TrigramsCover idx
    → TrigramsCover (index_name_trigrams idx name)
index_name_trigrams-TrigramsCover idx name room h = elim (Option-cases (get idx.name_to_idx name)) [
  | inr (i, old) ↦ rw (known_lem idx name i old) h
  | inl new ↦
      let n = length idx.names in
      let small = as_u32_small n room in
      let (names, numbers) = numbering_lem idx name new in
      record {
        numbered = λ other j p. ground (
          arith,
          names,
          numbers,
          small,
          p,
          get-insert idx.name_to_idx name (as_u32 n) other,
          get_elem?-append_last idx.names name,
          get_elem?-append_some idx.names (name ∷ []) j {a = other},
          h.numbered other j,
          ==_iff name other,
        );
        posted = λ other j w p q. ground (
          arith,
          numbers,
          p,
          q,
          get-insert idx.name_to_idx name (as_u32 n) other,
          posting_lem idx name w j new,
          h.posted other j w,
          ==_iff name other,
          ==_iff (as_u32 n) j,
        );
      }
]

-- at most one name is new
pub length-index_name_trigrams :
    (idx : HotIndexes) (name : Text)
    → length (index_name_trigrams idx name).names ≤ length idx.names + 1
length-index_name_trigrams idx name = elim (Option-cases (get idx.name_to_idx name)) [
  | inl new ↦ ground (arith, (numbering_lem idx name new).0, length-append idx.names (name ∷ []))
  | inr (i, old) ↦ ground (arith, known_lem idx name i old)
]

-- Indexing a name touches the three tables alone.
pub record SameSymbols (idx idx' : HotIndexes) : Type 0 where
  pub nodes : idx'.nodes ≡ idx.nodes
  pub symbols : idx'.symbols ≡ idx.symbols
  pub symbols_by_name : idx'.symbols_by_name ≡ idx.symbols_by_name
  pub files : idx'.files ≡ idx.files
  pub callers : idx'.callers ≡ idx.callers
  pub callees : idx'.callees ≡ idx.callees

pub index_name_trigrams-SameSymbols :
    (idx : HotIndexes) (name : Text) → SameSymbols idx (index_name_trigrams idx name)
unfolding index_name_trigrams
index_name_trigrams-SameSymbols idx name = ground arith
