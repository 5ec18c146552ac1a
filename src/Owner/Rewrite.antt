-- ===== src/Owner/Rewrite.antt =====
-- owner.rs `rewrite_imports`: the names under which references are looked up. The resolvers of a file
-- are arguments. `none` stands for a panic of the TypeScript resolver. `str::trim` is that of ASCII.
pub mod Names
pub mod Local
use xgraph.Prelude.{
  ℕ, ◌-◌, leb, Bool, true, false, not, ◌&&◌, ◌||◌, Option, none, some, List, [], ◌∷◌, ◌++◌, length,
  drop, take, if◌then◌else◌, ◌==◌, is_empty, nat_key, map,
}
use xgraph.Text.{Text, text, text_key, starts_with}
use xgraph.Map.{Map, empty, get, insert}
use xgraph.Cozo.Facts.{Ref, ExtractedFile}
use xgraph.Imports.Alias.{Resolved, returns, panics}
use xgraph.Imports.Python.{RelPath}
use xgraph.Scanner.{DetectedLanguage, php, blade, java_script, type_script, tsx, python, go, rust}
use xgraph.Owner.Paths.{js_path_key, js_local_symbol_key, rust_module_path}
use xgraph.Owner.Edges.{one_of}
use xgraph.Owner.Rewrite.Names.{
  split_hash, without_prefix, less_suffix, is_ascii_alphabetic, all_name_chars,
  is_js_simple_identifier, is_space, trim_start, trim_end_matches, without_blanks,
  before_last_colons, below, or_empty, normalize_rust_qname,
}

abbrev pub with_qname : Ref → Text → Ref
with_qname r qname = record r { qname = some qname }

-- what the TypeScript resolver gives goes into the reference, if it gives something
abbrev pub resolved_or : Resolved → (Text → Ref) → Ref → Option Ref
resolved_or panics f r = none
resolved_or (returns none) f r = some r
resolved_or (returns (some t)) f r = some (f t)

abbrev pub to_symbol : Ref → Text → Text → Ref
to_symbol r module_ symbol = with_qname r (module_ ++ b'#' ∷ symbol)

-- what a reference's rewriting comes to, and whether the name was that of an import
abbrev pub answered : Resolved → Ref → Text → Option (Ref × Bool)
answered panics r symbol = none
answered (returns none) r symbol = some (r, false)
answered (returns (some resolved)) r symbol = some (to_symbol r resolved symbol, true)

unfoldable pub rewrite_js_import_ref_qname : (Text → Resolved) → Ref → Option (Ref × Bool)
unfolding split_hash
rewrite_js_import_ref_qname ts r = elim r.qname [
  | none ↦ some (r, false)
  | some qname ↦ elim (split_hash qname) [
    | none ↦ some (r, false)
    | some (module_src, symbol) ↦ answered (ts module_src) r symbol
  ]
]

-- a local identifier gets the file's own key
unfoldable pub local_key : Text → Ref → Ref
unfolding is_js_simple_identifier js_local_symbol_key
local_key local_prefix r = elim r.qname [
  | some _ ↦ r
  | none ↦
      if is_js_simple_identifier r.name
      then with_qname r (js_local_symbol_key local_prefix r.name)
      else r
]

abbrev pub or_local : Text → Option (Ref × Bool) → Option Ref
or_local local_prefix none = none
or_local local_prefix (some (r, imported)) =
    if imported then some r else some (local_key local_prefix r)

abbrev pub rewritten_ref : Option (Ref × Bool) → Option Ref
rewritten_ref none = none
rewritten_ref (some (r, imported)) = some r

unfoldable pub rewrite_js_ref : (Text → Resolved) → Text → Ref → Option Ref
unfolding one_of rewrite_js_import_ref_qname local_key
rewrite_js_ref ts local_prefix r =
    if one_of (text "import_esm" ∷ text "import_cjs" ∷ []) r.kind
    then resolved_or (ts r.name) (with_qname r) r
    else if one_of (text "import_named" ∷ text "import_default" ∷ text "import_namespace" ∷ [])
        r.kind
    then elim r.qname [
      | none ↦ some r
      | some module_src ↦ resolved_or (ts module_src) (λ resolved. to_symbol r resolved r.name) r
    ]
    else if one_of (text "call" ∷ text "jsx_component" ∷ []) r.kind
    then or_local local_prefix (rewrite_js_import_ref_qname ts r)
    else if one_of (text "member_call" ∷ text "member_access" ∷ []) r.kind
    then rewritten_ref (rewrite_js_import_ref_qname ts r)
    else some r

unfoldable pub rewrite_js_refs : (Text → Resolved) → Text → List Ref → Option (List Ref)
unfolding rewrite_js_ref
rewrite_js_refs ts local_prefix [] = some []
rewrite_js_refs ts local_prefix (r ∷ refs) =
    let rest = rewrite_js_refs ts local_prefix refs in
    elim (rewrite_js_ref ts local_prefix r) [
      | none ↦ none
      | some r' ↦ elim rest [ none ↦ none | some rs ↦ some (r' ∷ rs) ]
    ]

abbrev pub or_same : Option Ref → Ref → Ref
or_same none r = r
or_same (some r') r = r'

unfoldable pub rewrite_python_ref : (Text → Option Text) → Ref → Ref
unfolding less_suffix
rewrite_python_ref py r = if not (r.kind == text "import") then r else elim r.qname [
  | some existing ↦ elim (py (less_suffix (b'.' ∷ r.name) existing)) [
    | none ↦ r
    | some resolved ↦ with_qname r (resolved ++ b'.' ∷ r.name)
  ]
  | none ↦ elim (py r.name) [ none ↦ r | some resolved ↦ with_qname r resolved ]
]

pub record GoModuleResolver : Type 0 where
  pub module_path : Option Text

-- `GoModuleResolver::resolve`
unfoldable pub resolve_go : GoModuleResolver → Text → Option Text
unfolding without_prefix
resolve_go self import_path = elim self.module_path [
  | none ↦ none
  | some module_ ↦
      if import_path == module_ then some [] else elim (without_prefix module_ import_path) [
        | none ↦ none
        | some rest ↦ without_prefix (text "/") rest
      ]
]

-- by local name
abbrev pub Aliases : Type 0
Aliases = Map Text Text

-- the first loop: the imports of the module, and what they are called here
unfoldable pub rewrite_go_imports : GoModuleResolver → Aliases → List Ref → List Ref × Aliases
unfolding resolve_go insert
rewrite_go_imports self imports [] = ([], imports)
rewrite_go_imports self imports (r ∷ refs) =
    let found = if not (r.kind == text "import_go") then none else resolve_go self r.name in
    let known : Aliases = elim found [
      | none ↦ imports
      | some resolved ↦ elim r.alias [ none ↦ imports | some alias ↦ insert imports alias resolved ]
    ] in
    let later = rewrite_go_imports self known refs in
    (elim found [ none ↦ r | some resolved ↦ with_qname r resolved ] ∷ later.0, later.1)

-- the second loop: calls through such a name
unfoldable pub rewrite_go_use : Aliases → Ref → Ref
unfolding one_of split_hash get
rewrite_go_use imports r =
    if not (one_of (text "go_selector_call" ∷ text "instantiates" ∷ []) r.kind)
    then r
    else elim r.qname [
      | none ↦ r
      | some qname ↦ elim (split_hash qname) [
        | none ↦ r
        | some (base, symbol) ↦ elim (get imports base) [
          | none ↦ r
          | some package_path ↦ to_symbol r package_path symbol
        ]
      ]
    ]

unfoldable pub rewrite_rust_imports : Text → Aliases → List Ref → List Ref × Aliases
unfolding normalize_rust_qname insert
rewrite_rust_imports current_module imports [] = ([], imports)
rewrite_rust_imports current_module imports (r ∷ refs) =
    let found = if not (r.kind == text "import_rust") then none else r.qname in
    let local_name : Text = elim r.alias [ none ↦ r.name | some alias ↦ alias ] in
    let known : Aliases = elim found [
      | none ↦ imports
      | some qname ↦ insert imports local_name (normalize_rust_qname qname current_module)
    ] in
    let later = rewrite_rust_imports current_module known refs in
    (
      elim found [
        | none ↦ r
        | some qname ↦ with_qname r (normalize_rust_qname qname current_module)
      ]
          ∷ later.0,
      later.1,
    )

unfoldable pub rewrite_rust_call : Text → Aliases → Ref → Ref
unfolding normalize_rust_qname get
rewrite_rust_call current_module imports r =
    if not (r.kind == text "rust_call") then r else elim r.qname [
      | some qname ↦ with_qname r (normalize_rust_qname qname current_module)
      | none ↦ elim (get imports r.name) [ none ↦ r | some imported ↦ with_qname r imported ]
    ]

-- the references of a file, and its language
unfoldable pub rewrite_imports :
    (Text → Resolved)
    → (Text → Option Text)
    → GoModuleResolver
    → RelPath
    → DetectedLanguage
    → List Ref
    → Option (List Ref)
unfolding rewrite_js_refs js_path_key rewrite_python_ref rewrite_go_imports rewrite_go_use
    rewrite_rust_imports rewrite_rust_call rust_module_path
rewrite_imports ts py go_ relative java_script refs = rewrite_js_refs ts (js_path_key relative) refs
rewrite_imports ts py go_ relative type_script refs = rewrite_js_refs ts (js_path_key relative) refs
rewrite_imports ts py go_ relative tsx refs = rewrite_js_refs ts (js_path_key relative) refs
rewrite_imports ts py go_ relative python refs = some (map (rewrite_python_ref py) refs)
rewrite_imports ts py go_ relative go refs =
    let (first, imports) = rewrite_go_imports go_ empty refs in
    some (map (rewrite_go_use imports) first)
rewrite_imports ts py go_ relative rust refs =
    let current_module = or_empty (rust_module_path relative) in
    let (first, imports) = rewrite_rust_imports current_module empty refs in
    some (map (rewrite_rust_call current_module imports) first)
rewrite_imports ts py go_ relative php refs = some refs
rewrite_imports ts py go_ relative blade refs = some refs
