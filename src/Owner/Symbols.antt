-- ===== src/Owner/Symbols.antt =====
-- owner.rs: the symbol table of a pass, by language family and name.
pub mod Sources
use xgraph.Prelude.{
  ℕ, Bool, true, false, not, ◌&&◌, ◌||◌, Option, none, some, List, [], ◌∷◌, ◌++◌, if◌then◌else◌,
  Key, ◌==◌, is_empty, nat_beq, nat_beq_iff, list_beq, list_beq_iff, nat_key, ◌↔◌, ◌≡◌, refl, arith,
}
use xgraph.Text.{Text, text, text_key}
use xgraph.Map.{Map, empty, get, insert}
use xgraph.Map.Lists.{get_list}
use xgraph.Cozo.Facts.{ContentHash, ExtractedFile, Node}
use xgraph.Cozo.NodeIds.{active_node_id}
use xgraph.Scanner.{DetectedLanguage, php, blade, java_script, type_script, tsx, python, go, rust}
use xgraph.Imports.Python.{RelPath}
use xgraph.Owner.Paths.{
  js_path_key, strip_index_suffix, js_local_symbol_key, python_module_path, go_package_path,
  rust_module_path,
}

pub data LanguageFamily : Type 0 where
  php_blade js_ts python_ go_ rust_ : LanguageFamily

-- a number for each family
unfoldable pub family_tag : LanguageFamily → ℕ
family_tag php_blade = 0
family_tag js_ts = 1
family_tag python_ = 2
family_tag go_ = 3
family_tag rust_ = 4

unfoldable pub family_beq : LanguageFamily → LanguageFamily → Bool
unfolding family_tag
family_beq a b = nat_beq (family_tag a) (family_tag b)

untag : ℕ → LanguageFamily
untag n =
    if nat_beq n 0
    then php_blade
    else if nat_beq n 1
    then js_ts
    else if nat_beq n 2
    then python_
    else if nat_beq n 3
    then go_
    else rust_

untag-family_tag : (a : LanguageFamily) → untag (family_tag a) ≡ a
unfolding untag family_tag
untag-family_tag php_blade = refl
untag-family_tag js_ts = refl
untag-family_tag python_ = refl
untag-family_tag go_ = refl
untag-family_tag rust_ = refl

pub family_beq_iff : (a b : LanguageFamily) → (family_beq a b ≡ true) ↔ (a ≡ b)
unfolding family_beq
family_beq_iff a b =
    ground
      (arith, nat_beq_iff (family_tag a) (family_tag b), untag-family_tag a, untag-family_tag b)

instance abbrev pub family_key : Key LanguageFamily
family_key = record { same = family_beq; same_iff = family_beq_iff }

unfoldable pub language_family : DetectedLanguage → LanguageFamily
language_family php = php_blade
language_family blade = php_blade
language_family java_script = js_ts
language_family type_script = js_ts
language_family tsx = js_ts
language_family python = python_
language_family go = go_
language_family rust = rust_

-- a key of the table
pub record FamilyName : Type 0 where
  pub family : LanguageFamily
  pub qname : Text

unfoldable pub family_name_beq : FamilyName → FamilyName → Bool
unfolding family_beq
family_name_beq a b = family_beq a.family b.family && list_beq a.qname b.qname

pub family_name_beq_iff : (a b : FamilyName) → (family_name_beq a b ≡ true) ↔ (a ≡ b)
unfolding family_name_beq
family_name_beq_iff a b =
    ground (arith, family_beq_iff a.family b.family, list_beq_iff a.qname b.qname)

instance abbrev pub family_name_key : Key FamilyName
family_name_key = record { same = family_name_beq; same_iff = family_name_beq_iff }

pub record SymbolTable : Type 0 where
  pub by_family_qname : Map FamilyName (List Text)

abbrev pub default : SymbolTable
default = record { by_family_qname = empty }

unfoldable pub lookup : SymbolTable → LanguageFamily → Text → List Text
unfolding get
lookup table family qname =
    get_list table.by_family_qname (record { family = family; qname = qname })

unfoldable pub register : SymbolTable → LanguageFamily → Text → Text → SymbolTable
unfolding insert lookup
register table family qname node_id = if is_empty qname then table else record {
  by_family_qname =
      insert table.by_family_qname (record { family = family; qname = qname })
        (lookup table family qname ++ node_id ∷ []);
}

pub record PreparedFile : Type 0 where
  pub relative : RelPath
  pub content_hash : ContentHash
  pub language : DetectedLanguage
  pub mtime : ℕ
  pub size : ℕ
  pub extracted : ExtractedFile
  pub source_bytes : Option Text

-- the prefixes of a file, of which a language has at most one
pub record Prefixes : Type 0 where
  pub js : Option Text
  pub python : Option Text
  pub go : Option Text
  pub rust : Option Text

abbrev pub no_prefixes : Prefixes
no_prefixes = record { js = none; python = none; go = none; rust = none }

unfoldable pub prefixes : DetectedLanguage → RelPath → Prefixes
unfolding js_path_key python_module_path go_package_path rust_module_path
prefixes php relative = no_prefixes
prefixes blade relative = no_prefixes
prefixes java_script relative = record no_prefixes { js = some (js_path_key relative) }
prefixes type_script relative = record no_prefixes { js = some (js_path_key relative) }
prefixes tsx relative = record no_prefixes { js = some (js_path_key relative) }
prefixes python relative = record no_prefixes { python = python_module_path relative }
prefixes go relative = record no_prefixes { go = some (go_package_path relative) }
prefixes rust relative = record no_prefixes { rust = rust_module_path relative }

unfoldable pub should_register_bare_name : LanguageFamily → Text → Bool
unfolding family_beq
should_register_bare_name family node_kind =
    if not (family == php_blade)
    then true
    else node_kind == text "class"
      || node_kind == text "interface"
      || node_kind == text "trait"
      || node_kind == text "enum"
      || node_kind == text "function"

-- a registration under a prefix, if there is one
unfoldable pub register_under :
    Option Text → (Text → Text) → LanguageFamily → Text → SymbolTable → SymbolTable
unfolding register
register_under none key family node_id table = table
register_under (some prefix) key family node_id table = register table family (key prefix) node_id

abbrev pub nonempty : Option Text → Option Text
nonempty none = none
nonempty (some s) = if is_empty s then none else some s

-- the directory's prefix of an `index` file
abbrev pub index_prefix : Option Text → Option Text
index_prefix none = none
index_prefix (some prefix) = strip_index_suffix prefix

-- the registrations that only top-level definitions have
unfoldable pub register_top_level :
    Prefixes → LanguageFamily → Text → Text → SymbolTable → SymbolTable
unfolding register_under strip_index_suffix
register_top_level p family name node_id table =
    let hash_key : Text → Text = λ prefix. prefix ++ b'#' ∷ name in
    let js = register_under p.js hash_key family node_id table in
    let index = register_under (index_prefix p.js) hash_key family node_id js in
    let python' =
      register_under p.python (λ module_. module_ ++ b'.' ∷ name) family node_id index in
    let go' = register_under (nonempty p.go) hash_key family node_id python' in
    register_under (nonempty p.rust) (λ prefix. prefix ++ text "::" ++ name) family node_id go'

-- one round of the loop over a file's nodes
unfoldable pub register_node :
    ContentHash → Prefixes → LanguageFamily → Node → SymbolTable → SymbolTable
unfolding register register_under register_top_level should_register_bare_name js_local_symbol_key
register_node hash p family node table =
    let node_id = active_node_id hash node.id in
    let qualified = register table family node.qname node_id in
    let bare =
      if not (node.name == node.qname) && should_register_bare_name family node.kind
      then register qualified family node.name node_id
      else qualified in
    let local =
      register_under p.js (λ prefix. js_local_symbol_key prefix node.name) family node_id bare in
    elim node.parent [ some _ ↦ local | none ↦ register_top_level p family node.name node_id local ]

unfoldable pub register_nodes :
    ContentHash → Prefixes → LanguageFamily → List Node → SymbolTable → SymbolTable
unfolding register_node
register_nodes hash p family [] table = table
register_nodes hash p family (node ∷ nodes) table =
    register_nodes hash p family nodes (register_node hash p family node table)

unfoldable pub register_files : List PreparedFile → SymbolTable → SymbolTable
unfolding register_nodes prefixes language_family
register_files [] table = table
register_files (prep ∷ rest) table = register_files rest (
    register_nodes prep.content_hash (prefixes prep.language prep.relative)
      (language_family prep.language) prep.extracted.nodes table)

unfoldable pub build_symbol_table : List PreparedFile → SymbolTable
unfolding register_files
build_symbol_table prepared = register_files prepared default
