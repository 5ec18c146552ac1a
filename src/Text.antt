-- ===== src/Text.antt =====
-- `str` of the standard library as its bytes: prefixes, substrings, ASCII lower case, windows.
pub mod Laws
use Prim.Native.Char.{code}
use Prim.Native.String
use Prim.Native.String.{String}
use xgraph.Prelude.{
  ℕ, zero, suc, ◌+◌, ◌≡◌, Bool, true, false, ◌&&◌, ◌||◌, Option, none, some, List, [], ◌∷◌, ◌++◌,
  map, leb, if◌then◌else◌, Key, ◌==◌, nat_key, list_key, ◌↔◌, arith, nat_beq, nat_beq_iff,
}

abbrev pub Text : Type 0
Text = List ℕ

instance abbrev pub text_key : Key Text
text_key = list_key

-- the bytes of an ASCII literal
abbrev pub text : String → Text
text String.[] = []
text (String.◌∷◌ c s) = code c ∷ text s

-- `str::starts_with`
unfoldable pub starts_with : Text → Text → Bool
starts_with s [] = true
starts_with [] (c ∷ p) = false
starts_with (b ∷ s) (c ∷ p) = b == c && starts_with s p

-- `str::contains`
unfoldable pub str_contains : Text → Text → Bool
unfolding starts_with
str_contains [] n = starts_with [] n
str_contains (b ∷ s) n = starts_with (b ∷ s) n || str_contains s n

-- `u8::to_ascii_lowercase`
unfoldable pub to_ascii_lowercase : ℕ → ℕ
to_ascii_lowercase b = if leb b'A' b && leb b b'Z' then b + 32 else b

unfoldable pub lower : Text → Text
unfolding to_ascii_lowercase
lower s = map to_ascii_lowercase s

-- `[u8; 3]`
pub record Trigram : Type 0 where
  pub b0 : ℕ
  pub b1 : ℕ
  pub b2 : ℕ

unfoldable pub trigram_beq : Trigram → Trigram → Bool
trigram_beq s t = nat_beq s.b0 t.b0 && (nat_beq s.b1 t.b1 && nat_beq s.b2 t.b2)

pub trigram_beq_iff : (s t : Trigram) → (trigram_beq s t ≡ true) ↔ (s ≡ t)
unfolding trigram_beq
trigram_beq_iff s t = ground arith

instance abbrev pub trigram_key : Key Trigram
trigram_key = record { same = trigram_beq; same_iff = trigram_beq_iff }

-- `windows(3)`
unfoldable pub windows : Text → List Trigram
windows (a ∷ b ∷ c ∷ s) = record { b0 = a; b1 = b; b2 = c } ∷ windows (b ∷ c ∷ s)
windows _ = []
