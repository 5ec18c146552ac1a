-- ===== src/Hash/Roundtrip.antt =====
-- `from_hex` against `Display`.
use xgraph.Prelude.{
  ℕ, suc, ◌+◌, ◌/◌, ◌%◌, ◌<◌, true, some, List, [], ◌∷◌, nat_key, length, arith, ◌≡◌, refl,
}
use xgraph.Map.{All}
use xgraph.Cozo.NodeIds.{hex, hex_digit}
use xgraph.Hash.{
  ContentHash, ok, to_digit, from_str_radix, begins_char, at_boundary, decode_pairs, from_hex,
  display,
}

abbrev pub Bytes : List ℕ → Type 0
Bytes bytes = All (λ b. b < 256) bytes

to_digit-hex_digit : (d : ℕ) → d < 16 → to_digit (hex_digit d) ≡ some d
unfolding to_digit hex_digit
to_digit-hex_digit d h = ground arith

hex_digit_bounds : (d : ℕ) → d < 16 → (47 < hex_digit d) × (hex_digit d < 128)
unfolding hex_digit
hex_digit_bounds d h = ground arith

at_boundary-hex : (bytes : List ℕ) → Bytes bytes → at_boundary (hex bytes) ≡ true
unfolding at_boundary hex begins_char
at_boundary-hex [] h = refl
at_boundary-hex (b ∷ bytes) h = ground (arith, hex_digit_bounds (b / 16) (omega (arith, h.0)))

from_str_radix-hex :
    (b : ℕ) → b < 256 → from_str_radix (hex_digit (b / 16)) (hex_digit (b % 16)) ≡ some b
unfolding from_str_radix
from_str_radix-hex b h =
    let hi : b / 16 < 16 = omega arith in
    let lo : b % 16 < 16 = omega arith in
    ground (
      arith,
      to_digit-hex_digit (b / 16) hi,
      to_digit-hex_digit (b % 16) lo,
      hex_digit_bounds (b / 16) hi,
    )

decode_pairs-hex :
    (actual start : ℕ) (bytes : List ℕ)
    → Bytes bytes
    → decode_pairs actual start (hex bytes) ≡ ok bytes
unfolding decode_pairs hex
decode_pairs-hex actual start [] h = refl
decode_pairs-hex actual start (b ∷ bytes) h = ground (
  arith,
  decode_pairs-hex actual (start + 2) bytes h.1,
  from_str_radix-hex b h.0,
  at_boundary-hex bytes h.1,
  at_boundary-hex (b ∷ bytes) h,
)

length-hex : (bytes : List ℕ) → length (hex bytes) ≡ length bytes + length bytes
unfolding hex
length-hex [] = refl
length-hex (b ∷ bytes) = omega (arith, length-hex bytes)

-- The hexadecimal text of a hash of 32 bytes reads back as that hash.
pub from_hex-display :
    (hash : ContentHash)
    → length hash.bytes ≡ 32
    → Bytes hash.bytes
    → from_hex (display hash) ≡ ok hash
unfolding from_hex display
from_hex-display hash n h =
    ground
      (arith, length-hex hash.bytes, decode_pairs-hex (length (hex hash.bytes)) 0 hash.bytes h, n)

-- A plus sign is taken for a leading zero: a text with a sign that is no hexadecimal digit reads as
-- a hash, the one that the text with a zero stands for.
pub from_hex_plus :
    (d : ℕ) (bytes : List ℕ)
    → d < 16
    → length bytes ≡ 31
    → Bytes bytes
    → from_hex (b'+' ∷ hex_digit d ∷ hex bytes) ≡ ok (record { bytes = d ∷ bytes })
unfolding from_hex decode_pairs at_boundary begins_char from_str_radix
from_hex_plus d bytes small n h = ground (
  arith,
  length-hex bytes,
  decode_pairs-hex (suc (suc (length (hex bytes)))) 2 bytes h,
  to_digit-hex_digit d small,
  at_boundary-hex bytes h,
  n,
)
