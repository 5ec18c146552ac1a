-- ===== src/Hash.antt =====
-- hash.rs: a content hash, its hexadecimal text, and the way back.
pub mod Roundtrip
use xgraph.Prelude.{
  ℕ, zero, suc, ◌+◌, ◌-◌, ◌*◌, ltb, leb, Bool, true, false, not, ◌&&◌, ◌||◌, Option, none, some,
  List, [], ◌∷◌, if◌then◌else◌, ◌==◌, nat_key, length,
}
use xgraph.Text.{Text}
use xgraph.Cozo.NodeIds.{hex}

-- `[u8; 32]`
pub record ContentHash : Type 0 where
  pub bytes : List ℕ

pub data FromHexError : Type 0 where
  invalid_length : (expected actual : ℕ) → FromHexError
  invalid_char : (index : ℕ) (value : Text) → FromHexError

pub data FromHex {ℓ} (A : Type ℓ) : Type ℓ where
  ok : A → FromHex A
  err : FromHexError → FromHex A

abbrev pub hex_chars : ℕ
hex_chars = 64

-- `char::to_digit(16)`
unfoldable pub to_digit : ℕ → Option ℕ
to_digit c =
    if leb b'0' c && leb c b'9'
    then some (c - b'0')
    else if leb b'a' c && leb c b'f'
    then some (c - b'a' + 10)
    else if leb b'A' c && leb c b'F'
    then some (c - b'A' + 10)
    else none

-- `u8::from_str_radix(pair, 16)`, which takes a sign before the digits
unfoldable pub from_str_radix : ℕ → ℕ → Option ℕ
unfolding to_digit
from_str_radix c d = if c == b'+' then to_digit d else elim (to_digit c) [
  | none ↦ none
  | some hi ↦ elim (to_digit d) [ none ↦ none | some lo ↦ some (hi * 16 + lo) ]
]

-- whether a `char` begins at this byte
unfoldable pub begins_char : ℕ → Bool
begins_char b = not (leb 128 b && leb b 191)

unfoldable pub at_boundary : Text → Bool
unfolding begins_char
at_boundary [] = true
at_boundary (b ∷ _) = begins_char b

-- the loop from the byte at `start` on
unfoldable pub decode_pairs : ℕ → ℕ → Text → FromHex (List ℕ)
unfolding at_boundary from_str_radix
decode_pairs actual start (c ∷ d ∷ rest) =
    let tail = decode_pairs actual (start + 2) rest in
    if at_boundary (c ∷ []) && at_boundary rest
    then elim (from_str_radix c d) [
      | none ↦ err (invalid_char start (c ∷ d ∷ []))
      | some byte ↦ elim tail [ ok bytes ↦ ok (byte ∷ bytes) | err e ↦ err e ]
    ]
    else err (invalid_length hex_chars actual)
decode_pairs actual start _ = ok []

unfoldable pub from_hex : Text → FromHex ContentHash
unfolding decode_pairs
from_hex s =
    if not (length s == hex_chars)
    then err (invalid_length hex_chars (length s))
    else elim (decode_pairs (length s) 0 s) [
      | ok bytes ↦ ok (record { bytes = bytes })
      | err e ↦ err e
    ]

-- `Display`
unfoldable pub display : ContentHash → Text
unfolding hex
display hash = hex hash.bytes
