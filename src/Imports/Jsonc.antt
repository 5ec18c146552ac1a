-- ===== src/Imports/Jsonc.antt =====
-- import_resolver.rs `strip_jsonc`, over the codes of an ASCII text.
use xgraph.Prelude.{
  ℕ, ◌≡◌, refl, Bool, true, false, ◌&&◌, ◌||◌, [], ◌∷◌, ◌++◌, ◌==◌, if◌then◌else◌, leb, nat_key,
  Option, none, some,
}
use xgraph.Text.{Text, text, text_key}

-- where the loops stand: outside comments, in a string (behind a backslash or not), or in a comment
pub data Mode : Type 0 where
  code : Mode
  in_string : Bool → Mode
  line : Mode
  block : ℕ → Mode

-- one byte in a string or in a comment: what is written, and the mode behind it
unfoldable pub inside : Mode → ℕ → Text × Mode
inside code c = (c ∷ [], code)
inside (in_string true) c = (c ∷ [], in_string false)
inside (in_string false) c =
    if c == 92
    then (c ∷ [], in_string true)
    else if c == 34
    then (c ∷ [], code)
    else (c ∷ [], in_string false)
inside line c = if c == 10 then (10 ∷ [], code) else ([], line)
inside (block previous) c =
    ((if c == 10 then 10 ∷ [] else []), (if previous == b'*' && c == b'/' then code else block c))

-- outside of both: what is written, whether the next byte is taken too, and the mode behind it
unfoldable pub outside : ℕ → Option ℕ → Text × Bool × Mode
outside c next =
    if c == 34
    then (c ∷ [], false, in_string false)
    else if c == b'/'
    then elim next [
      | none ↦ (c ∷ [], false, code)
      | some d ↦
          if d == b'/'
          then ([], true, line)
          else if d == b'*'
          then ([], true, block 0)
          else (c ∷ [], false, code)
    ]
    else (c ∷ [], false, code)

unfoldable pub strip_comments : Mode → Text → Text
unfolding inside outside
strip_comments code [] = []
strip_comments code (c ∷ []) = (outside c none).0
strip_comments code (c ∷ d ∷ rest) =
    let (out, both, m) = outside c (some d) in
    out ++ elim both [ true ↦ strip_comments m rest | false ↦ strip_comments m (d ∷ rest) ]
strip_comments m [] = []
strip_comments m (c ∷ rest) = let (out, m') = inside m c in out ++ strip_comments m' rest

-- `is_whitespace` on ASCII
unfoldable pub is_whitespace : ℕ → Bool
is_whitespace c = (leb 9 c && leb c 13) || c == 32

-- whether the first byte behind white space closes an array or an object
unfoldable pub closes : Text → Bool
unfolding is_whitespace
closes [] = false
closes (c ∷ rest) =
    let later = closes rest in if is_whitespace c then later else c == b']' || c == b'}'

-- The second loop. Behind a dropped comma the white space goes too, which `i = j` skips; `skipping`
-- says that the loop is there.
unfoldable pub strip_commas : Bool → Text → Text
unfolding closes
strip_commas skipping [] = []
strip_commas true (c ∷ rest) =
    if is_whitespace c then strip_commas true rest else c ∷ strip_commas false rest
strip_commas false (c ∷ rest) =
    if c == b',' && closes rest then strip_commas true rest else c ∷ strip_commas false rest

unfoldable pub strip_jsonc : Text → Text
unfolding strip_comments strip_commas
strip_jsonc s = strip_commas false (strip_comments code s)

example : strip_jsonc (text "[1, // one\n 2,\n]") ≡ text "[1, \n 2]"
unfolding strip_jsonc is_whitespace inside outside closes
example = refl
