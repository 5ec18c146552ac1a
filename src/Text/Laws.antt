-- ===== src/Text/Laws.antt =====
-- The laws of prefixes, substrings and windows.
use xgraph.Prelude.{
  ℕ, ◌≡◌, refl, true, ◌||◌, [], ◌∷◌, ◌++◌, arith, ==_iff, ◌==◌, contains, length, ◌≤◌, Bool-cases,
  inl, inr,
}
use xgraph.Text.{
  Text, starts_with, str_contains, lower, windows, Trigram, to_ascii_lowercase, trigram_key,
}

starts_with-cons :
    (b c : ℕ) (s n : Text) → starts_with (b ∷ s) (c ∷ n) ≡ true → (b ≡ c) × (starts_with s n ≡ true)
unfolding starts_with
starts_with-cons b c s n h = ground arith

starts_with-nil : (c : ℕ) (n : Text) → starts_with [] (c ∷ n) ≡ true → ⊥
unfolding starts_with
starts_with-nil c n h = cc

contains-windows_cons :
    (a b c : ℕ) (s : Text) (w : Trigram)
    → contains (windows (lower (a ∷ b ∷ c ∷ s))) w ≡ (
        record { b0 = to_ascii_lowercase a; b1 = to_ascii_lowercase b; b2 = to_ascii_lowercase c }
          == w
        || contains (windows (lower (b ∷ c ∷ s))) w)
unfolding windows lower contains
contains-windows_cons a b c s w = refl

no_windows : (s : Text) (w : Trigram) → length s ≤ 2 → contains (windows (lower s)) w ≡ true → ⊥
unfolding windows lower contains
no_windows [] w h m = cc
no_windows (a ∷ []) w h m = cc
no_windows (a ∷ b ∷ []) w h m = cc
no_windows (a ∷ b ∷ c ∷ s) w h m = absurd (omega arith)

pub windows-starts_with :
    (s n : Text) (w : Trigram)
    → starts_with s n ≡ true
    → contains (windows (lower n)) w ≡ true
    → contains (windows (lower s)) w ≡ true
windows-starts_with s [] w p m = absurd (no_windows [] w (omega arith) m)
windows-starts_with s (a ∷ []) w p m = absurd (no_windows (a ∷ []) w (omega arith) m)
windows-starts_with s (a ∷ b ∷ []) w p m = absurd (no_windows (a ∷ b ∷ []) w (omega arith) m)
windows-starts_with [] (a ∷ b ∷ c ∷ n) w p m = absurd (starts_with-nil a (b ∷ c ∷ n) p)
windows-starts_with (x ∷ []) (a ∷ b ∷ c ∷ n) w p m =
    absurd (starts_with-nil b (c ∷ n) (starts_with-cons x a [] (b ∷ c ∷ n) p).1)
windows-starts_with (x ∷ y ∷ []) (a ∷ b ∷ c ∷ n) w p m =
    let q = (starts_with-cons x a (y ∷ []) (b ∷ c ∷ n) p).1 in
    absurd (starts_with-nil c n (starts_with-cons y b [] (c ∷ n) q).1)
windows-starts_with (x ∷ y ∷ z ∷ s) (a ∷ b ∷ c ∷ n) w p m =
    let (e0, q) = starts_with-cons x a (y ∷ z ∷ s) (b ∷ c ∷ n) p in
    let (e1, r) = starts_with-cons y b (z ∷ s) (c ∷ n) q in
    let (e2, _) = starts_with-cons z c s n r in
    ground (
      arith,
      e0,
      e1,
      e2,
      contains-windows_cons a b c n w,
      contains-windows_cons x y z s w,
      windows-starts_with (y ∷ z ∷ s) (b ∷ c ∷ n) w q,
    )

contains-windows_tail :
    (b : ℕ) (s : Text) (w : Trigram)
    → contains (windows (lower s)) w ≡ true
    → contains (windows (lower (b ∷ s))) w ≡ true
contains-windows_tail b [] w m = absurd (no_windows [] w (omega arith) m)
contains-windows_tail b (x ∷ []) w m = absurd (no_windows (x ∷ []) w (omega arith) m)
contains-windows_tail b (x ∷ y ∷ s) w m = ground (arith, contains-windows_cons b x y s w)

-- A text has every window of each of its substrings, up to ASCII case.
pub windows-str_contains :
    (s n : Text) (w : Trigram)
    → str_contains s n ≡ true
    → contains (windows (lower n)) w ≡ true
    → contains (windows (lower s)) w ≡ true
unfolding str_contains
windows-str_contains [] n w p m = windows-starts_with [] n w p m
windows-str_contains (b ∷ s) n w p m = elim (Bool-cases (starts_with (b ∷ s) n)) [
  | inl here ↦ windows-starts_with (b ∷ s) n w here m
  | inr there ↦ contains-windows_tail b s w (windows-str_contains s n w (ground arith) m)
]

pub starts_with_refl : (s : Text) → starts_with s s ≡ true
unfolding starts_with
starts_with_refl [] = refl
starts_with_refl (b ∷ s) = ground (arith, starts_with_refl s)

pub length-starts_with : (s n : Text) → starts_with s n ≡ true → length n ≤ length s
unfolding starts_with
length-starts_with s [] h = omega arith
length-starts_with [] (c ∷ n) h = ground arith
length-starts_with (b ∷ s) (c ∷ n) h = ground (arith, length-starts_with s n)

pub starts_with-append : (p s : Text) → starts_with (p ++ s) p ≡ true
unfolding starts_with
starts_with-append [] s = refl
starts_with-append (b ∷ p) s = ground (arith, starts_with-append p s)

pub windows-nil :
    (n : Text) → 3 ≤ length n → (w : Trigram) × (contains (windows (lower n)) w ≡ true)
unfolding windows lower contains
windows-nil [] h = absurd (omega arith)
windows-nil (a ∷ []) h = absurd (omega arith)
windows-nil (a ∷ b ∷ []) h = absurd (omega arith)
windows-nil (a ∷ b ∷ c ∷ n) h =
    let w : Trigram = record {
      b0 = to_ascii_lowercase a;
      b1 = to_ascii_lowercase b;
      b2 = to_ascii_lowercase c;
    } in
    (w, ground (arith, ==_iff w w))
