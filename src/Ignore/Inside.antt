-- ===== src/Ignore/Inside.antt =====
-- What lies inside an ignored directory.
use xgraph.Prelude.{
  Bool, true, some, [], ◌∷◌, ◌++◌, ==_refl, ◌≡◌, refl, arith, sym, ◌∙◌, ap, append-nil,
  append_assoc, Bool-cases, inl, inr, nat_key, list_key, subst,
}
use xgraph.Text.{Text, text_key}
use xgraph.Ignore.{PathBuf, IgnoreMatcher, strip_prefix, is_ignore, decide, any_ignored, matched}

strip_prefix-append : (root p : PathBuf) → strip_prefix root (root ++ p) ≡ some p
unfolding strip_prefix
strip_prefix-append [] p = refl
strip_prefix-append (c ∷ root) p = rw (==_refl c) (strip_prefix-append root p)

any_ignored-append :
    (m : IgnoreMatcher) (leaf : Bool) (above p : PathBuf) (d : Text) (q : PathBuf)
    → any_ignored m true above p ≡ true
    → any_ignored m leaf above (p ++ d ∷ q) ≡ true
unfolding any_ignored
any_ignored-append m leaf above [] d q h = absurd (cc h)
any_ignored-append m leaf above (c ∷ []) d q h = rw h refl
any_ignored-append m leaf above (c ∷ e ∷ p) d q h =
    elim (Bool-cases (is_ignore (decide m (above ++ c ∷ []) true))) [
      | inl shut ↦ rw shut refl
      | inr reachable ↦
          rw reachable
            (any_ignored-append m leaf (above ++ c ∷ []) (e ∷ p) d q (ground (arith, h, reachable)))
    ]

matched_lem :
    (m : IgnoreMatcher) (is_dir : PathBuf → Bool) (p : PathBuf)
    → matched m is_dir (m.root ++ p) ≡ any_ignored m (is_dir (m.root ++ p)) m.root p
unfolding matched
matched_lem m is_dir p = rw (strip_prefix-append m.root p, matched) refl

-- Everything inside a directory that is ignored is ignored, whatever the ignore files say of it, and
-- whether or not it is a directory.
pub matched-inside :
    (m : IgnoreMatcher) (is_dir : PathBuf → Bool) (p q : PathBuf)
    → is_dir (m.root ++ p) ≡ true
    → matched m is_dir (m.root ++ p) ≡ true
    → matched m is_dir (m.root ++ p ++ q) ≡ true
matched-inside m is_dir p [] dir h =
    subst (λ t. matched m is_dir t ≡ true) (sym (append-nil (m.root ++ p))) h
matched-inside m is_dir p (d ∷ q) dir h =
    ap (matched m is_dir) (append_assoc m.root p (d ∷ q))
    ∙ matched_lem m is_dir (p ++ d ∷ q)
    ∙ any_ignored-append m (is_dir (m.root ++ (p ++ d ∷ q))) m.root p d q
        (subst (λ b. any_ignored m b m.root p ≡ true) dir (sym (matched_lem m is_dir p) ∙ h))
