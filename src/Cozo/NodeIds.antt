-- ===== src/Cozo/NodeIds.antt =====
-- cozo.rs `active_node_id`: the key of an active node is its file's hash in hexadecimal, a colon
-- and the local id in decimal.
pub mod Injective
use mathlib.Core.WellFounded.{Acc, WellFounded}
use mathlib.Core.Logic.{dite}
use native.Mathlib.Decide.{dec_lt}
use xgraph.Prelude.{
  ℕ, zero, suc, ◌+◌, ◌/◌, ◌%◌, ◌<◌, ltb, List, [], ◌∷◌, ◌++◌, arith, if◌then◌else◌, ◌-◌, ◌≡◌, refl,
}
use xgraph.Text.{Text, text}
use xgraph.Cozo.Facts.{ContentHash}

-- one digit of `{:x}`
unfoldable pub hex_digit : ℕ → ℕ
hex_digit d = if ltb d 10 then b'0' + d else b'a' + (d - 10)

-- `{byte:02x}` of every byte in turn
unfoldable pub hex : List ℕ → Text
unfolding hex_digit
hex [] = []
hex (b ∷ bytes) = hex_digit (b / 16) ∷ hex_digit (b % 16) ∷ hex bytes

Acc-below : (k n : ℕ) → n < k → Acc ◌<◌ n
Acc-below zero n h = elim h [ ]
Acc-below (suc k) n h = Acc.intro n (λ m hm. Acc-below k m (omega arith))

decimal_acc : (n : ℕ) → Acc ◌<◌ n → Text → Text
decimal_acc n (Acc.intro _ smaller) rest =
    dite (dec_lt 9 n)
      (λ h. decimal_acc (n / 10) (smaller (n / 10) (omega arith)) ((b'0' + n % 10) ∷ rest))
      (λ _. (b'0' + n) ∷ rest)

-- `{local_node_id}`
unfoldable pub decimal : ℕ → Text
unfolding decimal_acc Acc-below dec_lt
decimal n = decimal_acc n (Acc-below (suc n) n (omega arith)) []

unfoldable pub active_node_id : ContentHash → ℕ → Text
unfolding hex decimal
active_node_id hash local_node_id = hex hash ++ b':' ∷ decimal local_node_id

active_node_id_runs : active_node_id (0 ∷ 171 ∷ []) 1907 ≡ text "00ab:1907"
unfolding active_node_id
active_node_id_runs = refl
