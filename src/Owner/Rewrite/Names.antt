-- ===== src/Owner/Rewrite/Names.antt =====
-- owner.rs: the texts that the rewriting of imports takes apart and puts together.
use xgraph.Prelude.{
  ℕ, ◌-◌, leb, Bool, true, false, ◌&&◌, ◌||◌, Option, none, some, [], ◌∷◌, ◌++◌, length, drop, take,
  if◌then◌else◌, ◌==◌, is_empty, nat_key,
}
use xgraph.Text.{Text, text, text_key, starts_with}

-- `split_once('#')`
unfoldable pub split_hash : Text → Option (Text × Text)
split_hash [] = none
split_hash (c ∷ s) =
    let later = split_hash s in
    if c == b'#'
    then some ([], s)
    else elim later [ none ↦ none | some (base, symbol) ↦ some (c ∷ base, symbol) ]

-- `strip_prefix`, and the text itself without the prefix's end
unfoldable pub without_prefix : Text → Text → Option Text
without_prefix [] s = some s
without_prefix (c ∷ prefix) [] = none
without_prefix (c ∷ prefix) (d ∷ s) =
    let rest = without_prefix prefix s in if c == d then rest else none

-- `strip_suffix(…).unwrap_or(s)`
unfoldable pub less_suffix : Text → Text → Text
less_suffix suffix s =
    let n = length s - length suffix in
    if leb (length suffix) (length s) && drop n s == suffix then take n s else s

unfoldable pub is_ascii_alphabetic : ℕ → Bool
is_ascii_alphabetic c = (leb b'a' c && leb c b'z') || (leb b'A' c && leb c b'Z')

unfoldable pub all_name_chars : Text → Bool
unfolding is_ascii_alphabetic
all_name_chars [] = true
all_name_chars (c ∷ s) =
    (is_ascii_alphabetic c || (leb b'0' c && leb c b'9') || c == b'_' || c == b'$')
    && all_name_chars s

unfoldable pub is_js_simple_identifier : Text → Bool
unfolding is_ascii_alphabetic all_name_chars
is_js_simple_identifier [] = false
is_js_simple_identifier (first ∷ chars) =
    (is_ascii_alphabetic first || first == b'_' || first == b'$') && all_name_chars chars

-- white space of ASCII
unfoldable pub is_space : ℕ → Bool
is_space c = c == 32 || (leb 9 c && leb c 13)

unfoldable pub trim_start : Text → Text
unfolding is_space
trim_start [] = []
trim_start (c ∷ s) = let rest = trim_start s in if is_space c then rest else c ∷ s

-- the text without the bytes at its end that pass the test
unfoldable pub trim_end_matches : (ℕ → Bool) → Text → Text
trim_end_matches p [] = []
trim_end_matches p (c ∷ s) =
    let rest = trim_end_matches p s in if is_empty rest && p c then [] else c ∷ rest

-- `replace([' ', '\n', '\t'], "")`
unfoldable pub without_blanks : Text → Text
without_blanks [] = []
without_blanks (c ∷ s) =
    let rest = without_blanks s in if c == 32 || c == 10 || c == 9 then rest else c ∷ rest

-- what stands before the last `::`
unfoldable pub before_last_colons : Text → Option Text
unfolding starts_with
before_last_colons [] = none
before_last_colons (c ∷ s) = elim (before_last_colons s) [
  | some b ↦ some (c ∷ b)
  | none ↦ if starts_with (c ∷ s) (text "::") then some [] else none
]

-- below a module, if there is one
abbrev pub below : Text → Text → Text
below module_ rest = if is_empty module_ then rest else module_ ++ text "::" ++ rest

abbrev pub or_empty : Option Text → Text
or_empty none = []
or_empty (some s) = s

unfoldable pub normalize_rust_qname : Text → Text → Text
unfolding trim_start trim_end_matches is_space without_blanks without_prefix before_last_colons
normalize_rust_qname raw current_module =
    let path =
      without_blanks
        (trim_end_matches (λ c. c == b';') (trim_end_matches is_space (trim_start raw))) in
    elim (without_prefix (text "crate::") path) [
      | some rest ↦ rest
      | none ↦ elim (without_prefix (text "self::") path) [
        | some rest ↦ below current_module rest
        | none ↦ elim (without_prefix (text "super::") path) [
          | some rest ↦ below (or_empty (before_last_colons current_module)) rest
          | none ↦ path
        ]
      ]
    ]
