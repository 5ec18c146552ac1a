-- ===== src/Owner/Rewrite/Local.antt =====
-- Calls of a file's own functions in JavaScript and TypeScript: the rewriting gives a reference the name
-- under which the symbol table has the function.
use xgraph.Prelude.{
  true, false, not, ◌&&◌, none, some, List, [], ◌∷◌, ◌++◌, if◌then◌else◌, ◌==◌, is_empty, contains,
  list_beq, ◌≡◌, refl, subst, sym,
}
use xgraph.Text.{Text, text, text_key}
use xgraph.Cozo.Facts.{ContentHash, Node, Ref}
use xgraph.Cozo.NodeIds.{active_node_id}
use xgraph.Imports.Alias.{Resolved}
use xgraph.Imports.Python.{RelPath}
use xgraph.Scanner.{DetectedLanguage, php, blade, java_script, type_script, tsx, python, go, rust}
use xgraph.Owner.Paths.{js_path_key, js_local_symbol_key}
use xgraph.Owner.Edges.{one_of}
use xgraph.Owner.Rewrite.Names.{is_js_simple_identifier}
use xgraph.Owner.Rewrite.{with_qname, rewrite_js_import_ref_qname, local_key, rewrite_js_ref}
use xgraph.Owner.Symbols.{
  LanguageFamily, js_ts, Prefixes, prefixes, language_family, SymbolTable, PreparedFile, lookup,
  default, register, register_under, register_node, register_nodes, register_files,
  build_symbol_table, should_register_bare_name,
}
use xgraph.Owner.Symbols.Sources.{
  anything, parent-Step, register_nodes-Step, register_files-Step, contains-register,
}

local_key_nonempty : (prefix name : Text) → is_empty (js_local_symbol_key prefix name) ≡ false
unfolding js_local_symbol_key
local_key_nonempty [] name = refl
local_key_nonempty (c ∷ prefix) name = refl

module _ (hash : ContentHash) (p : Prefixes) (f : LanguageFamily) (prefix : Text)
    (js : p.js ≡ some prefix) where
  register_node-local :
      (node : Node) (t : SymbolTable)
      → contains
          (lookup (register_node hash p f node t) f (js_local_symbol_key prefix node.name))
          (active_node_id hash node.id)
        ≡ true
  unfolding register_node
  register_node-local node t =
      let n = active_node_id hash node.id in
      let q = js_local_symbol_key prefix node.name in
      let key : Text → Text = λ x. js_local_symbol_key x node.name in
      let t1 = register t f node.qname n in
      let bare =
        if not (node.name == node.qname) && should_register_bare_name f node.kind
        then register t1 f node.name n
        else t1 in
      let here : contains (lookup (register_under p.js key f n bare) f q) n ≡ true =
        rw (js, register_under)
          (contains-register bare f q n (local_key_nonempty prefix node.name)) in
      (parent-Step anything f n refl p node.name (register_under p.js key f n bare)
          node.parent).kept
        f q n here

  register_nodes-local :
      (before after : List Node) (node : Node) (t : SymbolTable)
      → contains
          (lookup
            (register_nodes hash p f (before ++ node ∷ after) t)
            f
            (js_local_symbol_key prefix node.name))
          (active_node_id hash node.id)
        ≡ true
  unfolding register_nodes
  register_nodes-local [] after node t =
      (register_nodes-Step anything hash p f after (register_node hash p f node t)
          (λ x d. refl)).kept
        f (js_local_symbol_key prefix node.name) (active_node_id hash node.id)
        (register_node-local node t)
  register_nodes-local (b ∷ before) after node t =
      register_nodes-local before after node (register_node hash p f b t)

js_prefix :
    (language : DetectedLanguage) (relative : RelPath)
    → language_family language ≡ js_ts
    → (prefixes language relative).js ≡ some (js_path_key relative)
unfolding prefixes language_family
js_prefix php relative h = absurd (cc h)
js_prefix blade relative h = absurd (cc h)
js_prefix java_script relative h = refl
js_prefix type_script relative h = refl
js_prefix tsx relative h = refl
js_prefix python relative h = absurd (cc h)
js_prefix go relative h = absurd (cc h)
js_prefix rust relative h = absurd (cc h)

register_files-local :
    (before after : List PreparedFile) (prep : PreparedFile) (above below : List Node) (node : Node)
    (t : SymbolTable)
    → language_family prep.language ≡ js_ts
    → prep.extracted.nodes ≡ above ++ node ∷ below
    → contains
        (lookup
          (register_files (before ++ prep ∷ after) t)
          js_ts
          (js_local_symbol_key (js_path_key prep.relative) node.name))
        (active_node_id prep.content_hash node.id)
      ≡ true
unfolding register_files
register_files-local [] after prep above below node t js declared =
    let f = language_family prep.language in
    let p = prefixes prep.language prep.relative in
    let q = js_local_symbol_key (js_path_key prep.relative) node.name in
    let n = active_node_id prep.content_hash node.id in
    let u = register_nodes prep.content_hash p f prep.extracted.nodes t in
    let found : contains (lookup u f q) n ≡ true = rw declared (
      register_nodes-local prep.content_hash p f (js_path_key prep.relative)
        (js_prefix prep.language prep.relative js) above below node t) in
    (register_files-Step anything after u (λ g id o. refl)).kept js_ts q n
      (subst (λ k. contains (lookup u k q) n ≡ true) js found)
register_files-local (b ∷ before) after prep above below node t js declared =
    register_files-local before after prep above below node
      (register_nodes b.content_hash (prefixes b.language b.relative) (language_family b.language)
        b.extracted.nodes t)
      js declared

not_module : one_of (text "import_esm" ∷ text "import_cjs" ∷ []) (text "call") ≡ false
unfolding one_of list_beq contains
not_module = refl

not_symbol :
    one_of
      (text "import_named" ∷ text "import_default" ∷ text "import_namespace" ∷ [])
      (text "call")
    ≡ false
unfolding one_of list_beq contains
not_symbol = refl

is_call : one_of (text "call" ∷ text "jsx_component" ∷ []) (text "call") ≡ true
unfolding one_of list_beq contains
is_call = refl

rewrite_js_ref-local :
    (ts : Text → Resolved) (prefix : Text) (r : Ref)
    → r.kind ≡ text "call"
    → r.qname ≡ none
    → is_js_simple_identifier r.name ≡ true
    → rewrite_js_ref ts prefix r ≡ some (with_qname r (js_local_symbol_key prefix r.name))
unfolding rewrite_js_ref rewrite_js_import_ref_qname local_key
rewrite_js_ref-local ts prefix r call nameless simple = rw call (
    rw not_module
      (rw not_symbol (rw is_call (rw nameless (rw (nameless, local_key) (rw simple refl))))))

-- A call by a simple identifier in a JavaScript or TypeScript file of a pass, where the file declares a
-- node of this name: the rewriting returns the reference with a qualified name, and under this name the
-- symbol table of the pass has the node.
pub local_call_found :
    (ts : Text → Resolved) (before after : List PreparedFile) (prep : PreparedFile)
    (above below : List Node) (node : Node) (r : Ref)
    → language_family prep.language ≡ js_ts
    → prep.extracted.nodes ≡ above ++ node ∷ below
    → r.kind ≡ text "call"
    → r.qname ≡ none
    → r.name ≡ node.name
    → is_js_simple_identifier r.name ≡ true
    → (q : Text) × (rewrite_js_ref ts (js_path_key prep.relative) r ≡ some (with_qname r q))
      × (contains
            (lookup (build_symbol_table (before ++ prep ∷ after)) js_ts q)
            (active_node_id prep.content_hash node.id)
          ≡ true)
unfolding build_symbol_table
local_call_found ts before after prep above below node r js declared call nameless named simple =
    let table = build_symbol_table (before ++ prep ∷ after) in
    let n = active_node_id prep.content_hash node.id in
    (
      js_local_symbol_key (js_path_key prep.relative) r.name,
      rewrite_js_ref-local ts (js_path_key prep.relative) r call nameless simple,
      subst
          (λ name.
            contains (lookup table js_ts (js_local_symbol_key (js_path_key prep.relative) name)) n
            ≡ true)
          (sym named) (register_files-local before after prep above below node default js declared),
    )
