-- ===== src/Handlers/Snippets.antt =====
-- handlers.rs `lookup_span_and_snippet`: the span of a node in the store, and a bounded part of its
-- file. The store's row, the file's bytes and `String::from_utf8_lossy` stand in `Reads`; a `usize` has
-- 64 bits.
use xgraph.Prelude.{
  ℕ, zero, suc, ◌+◌, ◌-◌, ◌*◌, ◌≤◌, min, Bool, true, false, ◌||◌, Option, none, some, List, [], ◌∷◌,
  ◌++◌, if◌then◌else◌, length, length-take, take, drop, leb, ltb, ◌==◌, nat_key, is_empty, arith,
  Option-cases, Bool-cases, inl, inr,
}
use xgraph.Text.{Text}
use xgraph.Indexes.State.{NodeId, FilePath}
use xgraph.Cozo.NodeIds.{decimal}

-- what `lookup_span_and_snippet` returns
pub record Lookup : Type 0 where
  pub span : List (Option ℕ)
  pub source : Option Text
  pub source_lines : Option Text
  pub source_truncated : Bool

-- `read_span` gives the numbers of the `span` column of the node's row, if there is one
pub record Reads : Type 0 where
  pub read_span : NodeId → Option (List (Option ℕ))
  pub read_file : FilePath → Option Text
  pub from_utf8_lossy : Text → Text

abbrev usize_max : ℕ
usize_max = 18446744073709551615

-- an item of the span's list, which may be shorter
abbrev item_at : ℕ → List (Option ℕ) → Option ℕ
item_at n [] = none
item_at zero (x ∷ xs) = x
item_at (suc n) (x ∷ xs) = item_at n xs

unfoldable pub read_snippet_with_cap :
    Reads → FilePath → Option ℕ → Option ℕ → ℕ → Option Text × Bool
read_snippet_with_cap reads path none end cap_bytes = (none, false)
read_snippet_with_cap reads path (some start) none cap_bytes = (none, false)
read_snippet_with_cap reads path (some start) (some end) cap_bytes =
    if leb end start || cap_bytes == 0 then (none, false) else elim (reads.read_file path) [
      | none ↦ (none, false)
      | some bytes ↦
          let part = min (end - start) cap_bytes in
          let stop = min (start + part) (length bytes) in
          if ltb usize_max (start + part) || leb (length bytes) start then (none, false) else (
            some (reads.from_utf8_lossy (take (stop - start) (drop start bytes))),
            ltb cap_bytes (end - start),
          )
    ]

-- `strip_suffix('\r')`
abbrev strip_cr : Text → Text
strip_cr [] = []
strip_cr (c ∷ []) = if c == 13 then [] else c ∷ []
strip_cr (c ∷ d ∷ s) = c ∷ strip_cr (d ∷ s)

-- `lines`, with the part of a line that has been read
unfoldable pub lines_from : Text → Text → List Text
lines_from [] current = if is_empty current then [] else current ∷ []
lines_from (c ∷ s) current = elim (c == 10) [
  | true ↦ strip_cr current ∷ lines_from s []
  | false ↦ lines_from s (current ++ c ∷ [])
]

-- the loop over the lines
unfoldable pub numbered : ℕ → List Text → Text
numbered line_number [] = []
numbered line_number (line ∷ lines) =
    decimal line_number ++ (9 ∷ (line ++ (10 ∷ numbered (line_number + 1) lines)))

unfoldable pub line_numbered_source : Text → Option ℕ → Option Text
unfolding numbered lines_from
line_numbered_source source none = none
line_numbered_source source (some row) = some (numbered (row + 1) (lines_from source []))

abbrev numbered_snippet : Option Text → Option ℕ → Option Text
numbered_snippet none row = none
numbered_snippet (some source) row = line_numbered_source source row

abbrev next_line : Option ℕ → Option ℕ
next_line none = none
next_line (some row) = some (row + 1)

-- the span's bytes, its row, its column and its line
unfoldable pub lookup_span_and_snippet : Reads → NodeId → FilePath → ℕ → Lookup
unfolding read_snippet_with_cap line_numbered_source
lookup_span_and_snippet reads id path max_bytes =
    let span : List (Option ℕ) = elim (reads.read_span id) [ none ↦ [] | some numbers ↦ numbers ] in
    let start = item_at 0 span in
    let end = item_at 1 span in
    let row = item_at 2 span in
    let snippet : Option Text × Bool =
      if max_bytes == 0
      then (none, false)
      else read_snippet_with_cap reads path start end max_bytes in
    record {
      span = start ∷ end ∷ row ∷ item_at 3 span ∷ next_line row ∷ [];
      source = snippet.0;
      source_lines = numbered_snippet snippet.0 row;
      source_truncated = snippet.1;
    }

abbrev pub source_bytes : Option Text → ℕ
source_bytes none = 0
source_bytes (some s) = length s

-- A byte that is no text is replaced by the three bytes of U+FFFD, perhaps together with others.
abbrev pub Replacing : (Text → Text) → Type 0
Replacing lossy = (s : Text) → length (lossy s) ≤ 3 * length s

module _ (reads : Reads) (replacing : Replacing reads.from_utf8_lossy) where
  read_snippet-bytes :
      (path : FilePath) (start end : Option ℕ) (cap : ℕ)
      → source_bytes (read_snippet_with_cap reads path start end cap).0 ≤ 3 * cap
  unfolding read_snippet_with_cap
  read_snippet-bytes path none end cap = omega arith
  read_snippet-bytes path (some start) none cap = omega arith
  read_snippet-bytes path (some start) (some end) cap =
      elim (Bool-cases (leb end start || cap == 0)) [
        | inl nothing ↦ rw nothing (omega arith)
        | inr asked ↦ rw asked (elim (Option-cases (reads.read_file path)) [
          | inl unreadable ↦ rw unreadable (omega arith)
          | inr (bytes, readable) ↦
              let part = min (end - start) cap in
              let stop = min (start + part) (length bytes) in
              let slice = take (stop - start) (drop start bytes) in
              rw readable
                (elim (Bool-cases (ltb usize_max (start + part) || leb (length bytes) start)) [
                  | inl out ↦ rw out (omega arith)
                  | inr within ↦ rw within (
                      omega (arith, replacing slice, length-take (stop - start) (drop start bytes)))
                ])
        ])
      ]

  -- A lookup's source has at most three bytes for each that it may have.
  pub lookup_span_and_snippet-bytes :
      (id : NodeId) (path : FilePath) (cap : ℕ)
      → source_bytes (lookup_span_and_snippet reads id path cap).source ≤ 3 * cap
  unfolding lookup_span_and_snippet
  lookup_span_and_snippet-bytes id path cap =
      let span : List (Option ℕ) = elim (reads.read_span id) [ none ↦ [] | some l ↦ l ] in
      elim (Bool-cases (cap == 0)) [
        | inl nothing ↦ rw nothing (omega arith)
        | inr some_ ↦ rw some_ (read_snippet-bytes path (item_at 0 span) (item_at 1 span) cap)
      ]
