-- ===== src/Imports/Alias/Aliases.antt =====
-- Which alias `resolve` takes.
use mathlib.Core.Path.{ap₂}
use xgraph.Prelude.{
  true, false, some, List, [], ◌∷◌, ◌++◌, ◌≡◌, ◌⊎◌, inl, inr, refl, ◌∙◌, ap, ==_refl, nat_key,
  append_assoc,
}
use xgraph.Text.{Text, text_key}
use xgraph.Map.{All}
use xgraph.Imports.Pattern.{captured, no_match, match_pattern, substitute_target}
use xgraph.Imports.Alias.{
  Component, root_dir, cur_dir, parent_dir, normal, Components, join, strip_prefix, same_component,
  components, normalize_to_string, is_relative_import, TsAliasResolver, returns, alias_target,
  resolve_aliases, resolve,
}

-- An alias that the loop passes over: its pattern does not match, or it has no target.
abbrev pub Skipped : Text → Text × List Text → Type 0
Skipped import_ entry =
    (match_pattern entry.0 import_ ≡ no_match)
    ⊎ ((c : Text) × (match_pattern entry.0 import_ ≡ captured c) × (entry.1 ≡ []))

resolve_aliases-skip :
    (self : TsAliasResolver) (before rest : List (Text × List Text)) (import_ : Text)
    (root : Components)
    → All (Skipped import_) before
    → resolve_aliases self (before ++ rest) import_ root ≡ resolve_aliases self rest import_ root
unfolding resolve_aliases
resolve_aliases-skip self [] rest import_ root h = refl
resolve_aliases-skip self ((pattern, targets) ∷ before) rest import_ root (inl e, h) =
    rw (e, resolve_aliases) (resolve_aliases-skip self before rest import_ root h)
resolve_aliases-skip self ((pattern, targets) ∷ before) rest import_ root (inr (c, e, none'), h) =
    rw (e, resolve_aliases) (rw none' (resolve_aliases-skip self before rest import_ root h))

same_component_refl : (c : Component) → same_component c c ≡ true
unfolding same_component
same_component_refl root_dir = refl
same_component_refl parent_dir = refl
same_component_refl cur_dir = refl
same_component_refl (normal s) = ==_refl s

strip_prefix-append : (root p : Components) → strip_prefix (root ++ p) root ≡ some p
unfolding strip_prefix
strip_prefix-append [] [] = refl
strip_prefix-append [] (c ∷ p) = refl
strip_prefix-append (c ∷ root) p = rw (same_component_refl c) (strip_prefix-append root p)

join-root :
    (root sub : Components) (s : Text) (cs : Components)
    → join ((root_dir ∷ root) ++ sub) (normal s ∷ cs) ≡ (root_dir ∷ root) ++ (sub ++ normal s ∷ cs)
unfolding join
join-root root sub s cs = ap (λ p. root_dir ∷ p) (append_assoc root sub (normal s ∷ cs))

alias_target_lem :
    (self : TsAliasResolver) (candidate s : Text) (root sub cs : Components)
    → self.base_url ≡ (root_dir ∷ root) ++ sub
    → components candidate ≡ normal s ∷ cs
    → alias_target self (root_dir ∷ root) candidate ≡ normalize_to_string (sub ++ normal s ∷ cs)
unfolding alias_target
alias_target_lem self candidate s root sub cs base tgt =
    let joined : join self.base_url (components candidate)
        ≡ (root_dir ∷ root) ++ (sub ++ normal s ∷ cs) =
      ap₂ join base tgt ∙ join-root root sub s cs in
    let stripped : strip_prefix (join self.base_url (components candidate)) (root_dir ∷ root)
        ≡ some (sub ++ normal s ∷ cs) =
      ap (λ p. strip_prefix p (root_dir ∷ root)) joined
      ∙ strip_prefix-append (root_dir ∷ root) (sub ++ normal s ∷ cs) in
    rw (stripped, alias_target) refl

resolve_aliases-head :
    (self : TsAliasResolver) (import_ pattern target c : Text) (targets : List Text)
    (after : List (Text × List Text)) (root : Components)
    → match_pattern pattern import_ ≡ captured c
    → resolve_aliases self ((pattern, target ∷ targets) ∷ after) import_ root
      ≡ returns (some (alias_target self root (substitute_target target c)))
unfolding resolve_aliases
resolve_aliases-head self import_ pattern target c targets after root hit =
    rw (hit, resolve_aliases) refl

-- A bare import that some alias matches is resolved by the first one that has a target: by its first
-- target with the captured text in place of the wildcards, below the base directory and relative to
-- the worktree's root. The base directory lies in the worktree, and the target begins with a name.
pub resolve-first :
    (self : TsAliasResolver) (import_ pattern target c s : Text) (targets : List Text)
    (before after : List (Text × List Text)) (importing_file root sub cs : Components)
    → is_relative_import import_ ≡ false
    → self.aliases ≡ before ++ (pattern, target ∷ targets) ∷ after
    → All (Skipped import_) before
    → match_pattern pattern import_ ≡ captured c
    → self.base_url ≡ (root_dir ∷ root) ++ sub
    → components (substitute_target target c) ≡ normal s ∷ cs
    → resolve self import_ importing_file (root_dir ∷ root)
      ≡ returns (some (normalize_to_string (sub ++ normal s ∷ cs)))
unfolding resolve
resolve-first self import_ pattern target c s targets before after importing_file root sub cs bare
      al skip hit base tgt =
    rw bare (
      ap (λ l. resolve_aliases self l import_ (root_dir ∷ root)) al
      ∙ resolve_aliases-skip self before ((pattern, target ∷ targets) ∷ after) import_
          (root_dir ∷ root) skip
      ∙ resolve_aliases-head self import_ pattern target c targets after (root_dir ∷ root) hit
      ∙ ap (λ t. returns (some t))
          (alias_target_lem self (substitute_target target c) s root sub cs base tgt))
