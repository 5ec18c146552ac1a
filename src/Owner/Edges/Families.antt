-- ===== src/Owner/Edges/Families.antt =====
-- Edges stay within a language family, and start where the reference stands.
use xgraph.Prelude.{
  ℕ, true, ◌||◌, Option, none, some, List, [], ◌∷◌, ◌++◌, map, ==_refl, contains, is_empty, ◌≡◌,
  ◌⊎◌, refl, arith, Option-cases, Bool-cases, inl, inr, nat_key,
}
use xgraph.Text.{Text, text_key}
use xgraph.Map.{All, All-map, get, find}
use xgraph.Cozo.Facts.{ContentHash, ExtractedFile, Ref, EdgeFact}
use xgraph.Cozo.NodeIds.{active_node_id}
use xgraph.Owner.Symbols.{
  LanguageFamily, family_key, lookup, PreparedFile, build_symbol_table, language_family, default,
}
use xgraph.Owner.Symbols.Sources.{owned, build_symbol_table_lem}
use xgraph.Owner.Edges.{
  lookup_key, source_of, is_skipped_member_call, edge_kind_for_ref, edge_to, ref_edges,
  resolve_refs, resolve_edges, file_level_node_id, is_file_level_edge_kind,
}

All-append {ℓ} :
    {A : Type 0} (P : A → Type ℓ) (xs ys : List A) → All P xs → All P ys → All P (xs ++ ys)
All-append P [] ys h k = k
All-append P (x ∷ xs) ys h k = (h.0, All-append P xs ys h.1 k)

-- The edge has the kind of the reference. It starts at the container of the reference, a node of the
-- file with this hash, or, where there is none, at the file itself, as an import or export.
abbrev pub StartsAt : ContentHash → Text → Ref → EdgeFact → Type 0
StartsAt hash path r e =
    (e.kind ≡ edge_kind_for_ref r.kind)
    × (((local : ℕ) × (r.container ≡ some local) × (e.source_node_id ≡ active_node_id hash local))
        ⊎ ((r.container ≡ none)
            × (e.source_node_id ≡ file_level_node_id path)
            × (is_file_level_edge_kind e.kind ≡ true)))

-- One of the references is where the edge starts.
unfoldable pub FromRefs : ContentHash → Text → List Ref → EdgeFact → Type 0
FromRefs hash path [] e = ⊥
FromRefs hash path (r ∷ refs) e = StartsAt hash path r e ⊎ FromRefs hash path refs e

container-StartsAt :
    (hash : ContentHash) (path : Text) (r : Ref) (container : Option ℕ) (source target : Text)
    → r.container ≡ container
    → source_of hash path container (edge_kind_for_ref r.kind) ≡ some source
    → StartsAt hash path r (edge_to source (edge_kind_for_ref r.kind) target)
unfolding source_of
container-StartsAt hash path r (some local) source target c h =
    (refl, inl (local, c, ground (arith, h)))
container-StartsAt hash path r none source target c h =
    (refl, inr (c, ground (arith, h), ground (arith, h)))

module _ (hash : ContentHash) (path : Text) (files : List PreparedFile) (f : LanguageFamily) where
  abbrev OfRef : Ref → EdgeFact → Type 0
  OfRef r e = (owned files f e.target_node_id ≡ true) × StartsAt hash path r e

  -- The edge ends at a node that a prepared file of the family declares.
  abbrev pub WithinFamily : List Ref → EdgeFact → Type 0
  WithinFamily refs e = (owned files f e.target_node_id ≡ true) × FromRefs hash path refs e

  targets-OfRef :
      (r : Ref) (source kind : Text) (targets : List Text)
      → ((t : Text) → StartsAt hash path r (edge_to source kind t))
      → ((id : Text) → contains targets id ≡ true → owned files f id ≡ true)
      → All (OfRef r) (map (edge_to source kind) targets)
  unfolding contains
  targets-OfRef r source kind [] from own = tt
  targets-OfRef r source kind (t ∷ targets) from own = (
    (own t (ground (arith, ==_refl t)), from t),
    targets-OfRef r source kind targets from (λ id h. own id (ground (arith, h))),
  )

  ref_edges-OfRef : (r : Ref) → All (OfRef r) (ref_edges hash path (build_symbol_table files) f r)
  unfolding ref_edges
  ref_edges-OfRef r = elim (Option-cases (lookup_key f r)) [
    | inl skip ↦ rw (skip, ref_edges) tt
    | inr (key, e) ↦
        let table = build_symbol_table files in
        let targets = lookup table f key in
        elim (Bool-cases (is_skipped_member_call f r || is_empty targets)) [
          | inl skip ↦ rw (e, ref_edges) (rw skip tt)
          | inr go ↦
              elim (Option-cases (source_of hash path r.container (edge_kind_for_ref r.kind))) [
                | inl skip ↦ rw (e, ref_edges) (rw go (rw skip tt))
                | inr (source, s) ↦
                    rw (e, ref_edges)
                      (rw go (
                        rw s (
                          targets-OfRef r source (edge_kind_for_ref r.kind) targets
                            (λ t. container-StartsAt hash path r r.container source t refl s)
                            (λ id. (build_symbol_table_lem files f key id).0))))
              ]
        ]
  ]

  resolve_refs-WithinFamily :
      (refs : List Ref)
      → All (WithinFamily refs) (resolve_refs hash path (build_symbol_table files) f refs)
  unfolding resolve_refs FromRefs
  resolve_refs-WithinFamily [] = tt
  resolve_refs-WithinFamily (r ∷ refs) =
      let here = ref_edges hash path (build_symbol_table files) f r in
      let rest = resolve_refs hash path (build_symbol_table files) f refs in
      All-append (WithinFamily (r ∷ refs)) here rest
        (All-map (OfRef r) (WithinFamily (r ∷ refs)) here (λ e h. (h.0, inl h.1))
          (ref_edges-OfRef r))
        (All-map (WithinFamily refs) (WithinFamily (r ∷ refs)) rest (λ e h. (h.0, inr h.1))
          (resolve_refs-WithinFamily refs))

-- Every edge that a pass resolves for a file ends at a node that a prepared file of the same language
-- family declares. It has the kind of one of the file's references, and starts at the node that
-- contains this reference, or, where nothing contains it, at the file itself, as an import or export.
pub resolve_edges-WithinFamily :
    (files : List PreparedFile) (prep : PreparedFile)
    → let f = language_family prep.language in
      All
        (WithinFamily prep.content_hash prep.extracted.path files f prep.extracted.refs)
        (resolve_edges prep.content_hash prep.extracted (build_symbol_table files) f)
unfolding resolve_edges
resolve_edges-WithinFamily files prep =
    resolve_refs-WithinFamily prep.content_hash prep.extracted.path files
      (language_family prep.language) prep.extracted.refs

lookup-default : (f : LanguageFamily) (q : Text) → lookup default f q ≡ []
unfolding lookup get find
lookup-default f q = refl

ref_edges-default :
    (hash : ContentHash) (path : Text) (f : LanguageFamily) (r : Ref)
    → ref_edges hash path default f r ≡ []
unfolding ref_edges
ref_edges-default hash path f r = elim (Option-cases (lookup_key f r)) [
  | inl skip ↦ rw (skip, ref_edges) refl
  | inr (key, e) ↦ ground (arith, e, lookup-default f key)
]

pub resolve_refs-default :
    (hash : ContentHash) (path : Text) (f : LanguageFamily) (refs : List Ref)
    → resolve_refs hash path default f refs ≡ []
unfolding resolve_refs
resolve_refs-default hash path f [] = refl
resolve_refs-default hash path f (r ∷ refs) =
    rw (ref_edges-default hash path f r) (resolve_refs-default hash path f refs)

-- With an empty symbol table, no reference becomes an edge.
pub resolve_edges-default :
    (hash : ContentHash) (extracted : ExtractedFile) (f : LanguageFamily)
    → resolve_edges hash extracted default f ≡ []
unfolding resolve_edges
resolve_edges-default hash extracted f = resolve_refs-default hash extracted.path f extracted.refs
