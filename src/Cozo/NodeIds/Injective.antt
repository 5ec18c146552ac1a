-- ===== src/Cozo/NodeIds/Injective.antt =====
-- Distinct hashes or local ids give distinct identifiers.
use mathlib.Core.WellFounded.{Acc}
use mathlib.Core.Logic.{dif_pos, dif_neg}
use native.Mathlib.Decide.{dec_lt}
use native.Mathlib.Bridge.{le_prop}
use xgraph.Prelude.{
  ℕ, suc, ◌+◌, ◌*◌, ◌/◌, ◌%◌, ◌<◌, ◌-◌, List, [], ◌∷◌, ◌++◌, arith, ◌≡◌, refl, length, ◌∙◌, ap, sym,
}
use xgraph.Map.{All}
use xgraph.Text.{Text}
use xgraph.Cozo.Facts.{ContentHash}
use xgraph.Cozo.NodeIds.{hex_digit, hex, decimal_acc, decimal, Acc-below, active_node_id}

hex_digit_inj : (d e : ℕ) → d < 16 → e < 16 → hex_digit d ≡ hex_digit e → d ≡ e
unfolding hex_digit
hex_digit_inj d e hd he h = ground arith

byte_of_nibbles :
    (a b : ℕ)
    → a < 256
    → b < 256
    → hex_digit (a / 16) ≡ hex_digit (b / 16)
    → hex_digit (a % 16) ≡ hex_digit (b % 16)
    → a ≡ b
byte_of_nibbles a b ha hb hi lo = omega (
  arith,
  hex_digit_inj (a / 16) (b / 16) (omega arith) (omega arith) hi,
  hex_digit_inj (a % 16) (b % 16) (omega arith) (omega arith) lo,
)

head_eq : (a b : ℕ) (s t : Text) → a ∷ s ≡ b ∷ t → (a ≡ b) × (s ≡ t)
head_eq a b s t h = ground arith

pub hex-append_inj :
    (a b : List ℕ) (s t : Text)
    → All (λ x. x < 256) a
    → All (λ x. x < 256) b
    → length a ≡ length b
    → hex a ++ s ≡ hex b ++ t
    → (a ≡ b) × (s ≡ t)
unfolding hex
hex-append_inj [] [] s t ha hb n h = (refl, h)
hex-append_inj [] (y ∷ b) s t ha hb n h = absurd (omega arith)
hex-append_inj (x ∷ a) [] s t ha hb n h = absurd (omega arith)
hex-append_inj (x ∷ a) (y ∷ b) s t ha hb n h =
    let (hi, rest) = head_eq _ _ _ _ h in
    let (lo, rest') = head_eq _ _ _ _ rest in
    let (tails, ends) = hex-append_inj a b s t ha.1 hb.1 (omega arith) rest' in
    (cc (byte_of_nibbles x y ha.0 hb.0 hi lo, tails), ends)

-- the number that a text of digits stands for, most significant digit first
digits_value : ℕ → Text → ℕ
digits_value n [] = n
digits_value n (c ∷ s) = digits_value (n * 10 + (c - b'0')) s

value-decimal_acc :
    (n : ℕ) (w : Acc ◌<◌ n) (rest : Text)
    → digits_value 0 (decimal_acc n w rest) ≡ digits_value n rest
unfolding decimal_acc digits_value
value-decimal_acc n (Acc.intro _ smaller) rest = elim (dec_lt 9 n) [
  | yes p ↦ rw (dif_pos _ le_prop p) (
      value-decimal_acc (n / 10) (smaller (n / 10) (omega arith)) ((b'0' + n % 10) ∷ rest)
      ∙ ap (λ k. digits_value k rest) (omega arith))
  | no p ↦ rw (dif_neg _ p) (ap (λ k. digits_value k rest) (omega arith))
]

pub decimal_inj : (m n : ℕ) → decimal m ≡ decimal n → m ≡ n
unfolding decimal digits_value
decimal_inj m n h =
    sym (value-decimal_acc m (Acc-below (suc m) m (omega arith)) [])
    ∙ ap (digits_value 0) h
    ∙ value-decimal_acc n (Acc-below (suc n) n (omega arith)) []

-- Hashes of one length, of bytes, and local ids are both determined by the identifier that
-- `active_node_id` makes of them.
pub active_node_id_inj :
    (h h' : ContentHash) (m n : ℕ)
    → All (λ x. x < 256) h
    → All (λ x. x < 256) h'
    → length h ≡ length h'
    → active_node_id h m ≡ active_node_id h' n
    → (h ≡ h') × (m ≡ n)
unfolding active_node_id
active_node_id_inj h h' m n b b' same e =
    let (hashes, rest) = hex-append_inj h h' _ _ b b' same e in
    (hashes, decimal_inj m n (head_eq _ _ _ _ rest).1)
