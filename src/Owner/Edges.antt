-- ===== src/Owner/Edges.antt =====
-- owner.rs: references become edges to the nodes that the symbol table holds under their keys.
pub mod Families
use xgraph.Prelude.{
  ℕ, Bool, true, false, not, ◌&&◌, ◌||◌, Option, none, some, List, [], ◌∷◌, ◌++◌, map,
  if◌then◌else◌, ◌==◌, contains, is_empty, nat_key,
}
use xgraph.Text.{Text, text, text_key, str_contains}
use xgraph.Cozo.Facts.{ContentHash, ExtractedFile, Ref, EdgeFact}
use xgraph.Cozo.NodeIds.{active_node_id}
use xgraph.Owner.Symbols.{
  LanguageFamily, php_blade, js_ts, go_, rust_, family_key, family_beq, SymbolTable, lookup,
}

-- `matches!(kind, a | b | …)`
unfoldable pub one_of : List Text → Text → Bool
one_of kinds kind = contains kinds kind

unfoldable pub is_php_member_call_ref : Text → Bool
unfolding one_of
is_php_member_call_ref kind =
    one_of (text "method_call" ∷ text "static_call" ∷ text "nullsafe_method_call" ∷ []) kind

unfoldable pub is_jsts_precise_ref : Text → Bool
unfolding one_of
is_jsts_precise_ref kind =
    one_of (text "call" ∷ text "member_call" ∷ text "member_access" ∷ text "jsx_component" ∷ [])
      kind

unfoldable pub is_go_precise_ref : Text → Bool
is_go_precise_ref kind = kind == text "go_selector_call"

unfoldable pub is_rust_precise_ref : Text → Bool
is_rust_precise_ref kind = kind == text "rust_call"

unfoldable pub is_hash_precise_ref : LanguageFamily → Text → Bool
unfolding is_jsts_precise_ref is_go_precise_ref family_beq
is_hash_precise_ref family kind =
    (family == js_ts && is_jsts_precise_ref kind) || (family == go_ && is_go_precise_ref kind)

unfoldable pub file_level_node_id : Text → Text
file_level_node_id relative = text "file:" ++ relative

unfoldable pub is_file_level_edge_kind : Text → Bool
unfolding one_of
is_file_level_edge_kind edge_kind = one_of (text "imports" ∷ text "exports" ∷ []) edge_kind

unfoldable pub edge_kind_for_ref : Text → Text
unfolding one_of
edge_kind_for_ref kind =
    if one_of
      (text "call"
        ∷ text "member_call"
        ∷ text "method_call"
        ∷ text "static_call"
        ∷ text "nullsafe_method_call"
        ∷ [])
      kind
    then text "calls"
    else if one_of (text "go_selector_call" ∷ text "rust_call" ∷ []) kind
    then text "calls"
    else if one_of (text "extends" ∷ text "inheritance" ∷ []) kind
    then text "inherits"
    else if kind == text "implements"
    then text "implements"
    else if kind == text "trait_use"
    then text "uses"
    else if one_of
        (text "import"
          ∷ text "import_esm"
          ∷ text "import_cjs"
          ∷ text "import_go"
          ∷ text "import_rust"
          ∷ [])
        kind
    then text "imports"
    else if one_of (text "import_named" ∷ text "import_default" ∷ text "import_namespace" ∷ []) kind
    then text "imports"
    else if one_of (text "export" ∷ text "export_esm" ∷ text "export_cjs" ∷ []) kind
    then text "exports"
    else if one_of (text "type_reference" ∷ text "instantiates" ∷ text "route_handler" ∷ []) kind
    then text "references"
    else if kind == text "jsx_component"
    then text "renders"
    else if one_of (text "blade_view" ∷ text "blade_component" ∷ text "blade_x_component" ∷ []) kind
    then text "renders"
    else text "references"

-- `r.qname` where it holds a text, and otherwise nothing: the reference is skipped
abbrev pub holding : Text → Option Text → Option Text
holding part none = none
holding part (some qname) = if str_contains qname part then some qname else none

abbrev pub is_some : Option Text → Bool
is_some none = false
is_some (some _) = true

-- `r.qname.as_deref().unwrap_or(r.name)`
abbrev pub qname_or_name : Option Text → Text → Text
qname_or_name none name = name
qname_or_name (some qname) name = qname

-- the key under which a reference is looked up, or `continue`
unfoldable pub lookup_key : LanguageFamily → Ref → Option Text
unfolding is_hash_precise_ref is_rust_precise_ref str_contains family_beq
lookup_key family r =
    if is_hash_precise_ref family r.kind
    then holding (text "#") r.qname
    else if family == rust_ && is_rust_precise_ref r.kind && is_some (holding (text "::") r.qname)
    then r.qname
    else some (qname_or_name r.qname r.name)

-- PHP member calls without a class are skipped
unfoldable pub is_skipped_member_call : LanguageFamily → Ref → Bool
unfolding is_php_member_call_ref str_contains family_beq
is_skipped_member_call family r =
    family == php_blade
    && is_php_member_call_ref r.kind
    && elim r.qname [ none ↦ true | some qname ↦ not (str_contains qname (text "::")) ]

-- the edge's source, or `continue`
unfoldable pub source_of : ContentHash → Text → Option ℕ → Text → Option Text
unfolding is_file_level_edge_kind file_level_node_id
source_of hash path (some local) edge_kind = some (active_node_id hash local)
source_of hash path none edge_kind =
    if is_file_level_edge_kind edge_kind then some (file_level_node_id path) else none

abbrev pub edge_to : Text → Text → Text → EdgeFact
edge_to source kind target = record {
  source_node_id = source;
  kind = kind;
  target_node_id = target;
  provenance = text "parser_extract";
  confidence = 80;
}

-- one round of the loop over the references
unfoldable pub ref_edges : ContentHash → Text → SymbolTable → LanguageFamily → Ref → List EdgeFact
unfolding lookup_key is_skipped_member_call source_of edge_kind_for_ref lookup
ref_edges hash path symbols family r = elim (lookup_key family r) [
  | none ↦ []
  | some key ↦
      if is_skipped_member_call family r || is_empty (lookup symbols family key)
      then []
      else elim (source_of hash path r.container (edge_kind_for_ref r.kind)) [
        | none ↦ []
        | some source ↦ map (edge_to source (edge_kind_for_ref r.kind)) (lookup symbols family key)
      ]
]

unfoldable pub resolve_refs :
    ContentHash → Text → SymbolTable → LanguageFamily → List Ref → List EdgeFact
unfolding ref_edges
resolve_refs hash path symbols family [] = []
resolve_refs hash path symbols family (r ∷ refs) =
    ref_edges hash path symbols family r ++ resolve_refs hash path symbols family refs

unfoldable pub resolve_edges :
    ContentHash → ExtractedFile → SymbolTable → LanguageFamily → List EdgeFact
unfolding resolve_refs
resolve_edges hash extracted symbols family =
    resolve_refs hash extracted.path symbols family extracted.refs
