-- ===== src/Owner/Symbols/Sources.antt =====
-- Which nodes the symbol table holds under a name.
use xgraph.Prelude.{
  ℕ, Bool, true, false, not, ◌&&◌, ◌||◌, Option, none, some, List, [], ◌∷◌, ◌++◌, map,
  if◌then◌else◌, ◌==◌, ==_iff, ==_refl, is_empty, contains, contains-append, ◌≡◌, refl, arith,
  Bool-cases, inl, inr, nat_key, subst,
}
use xgraph.Text.{Text, text, text_key}
use xgraph.Map.{get, get-insert, find}
use xgraph.Cozo.Facts.{ContentHash, Node}
use xgraph.Cozo.NodeIds.{active_node_id}
use xgraph.Owner.Symbols.{
  LanguageFamily, family_key, family_name_key, family_name_beq, language_family, SymbolTable,
  default, lookup, register, PreparedFile, Prefixes, prefixes, register_under, register_top_level,
  register_node, register_nodes, register_files, build_symbol_table, should_register_bare_name,
  nonempty, index_prefix, js_local_symbol_key,
}

lookup-register :
    (t : SymbolTable) (f : LanguageFamily) (q n : Text) (g : LanguageFamily) (r : Text)
    → lookup (register t f q n) g r
      ≡ (if not (is_empty q) && (f == g && q == r) then lookup t f q ++ n ∷ [] else lookup t g r)
unfolding lookup register family_name_beq
lookup-register t f q n g r = ground (
  arith,
  get-insert t.by_family_qname (record { family = f; qname = q }) (lookup t f q ++ n ∷ [])
      (record { family = g; qname = r }),
  Bool-cases (is_empty q),
  ==_iff f g,
  ==_iff q r,
)

-- Only nodes that `P` allows for a family are found in it.
abbrev pub Sourced : (LanguageFamily → Text → Bool) → SymbolTable → Type 0
Sourced P t = (f : LanguageFamily) (q id : Text) → contains (lookup t f q) id ≡ true → P f id ≡ true

-- What was found is still found.
abbrev pub Kept : SymbolTable → SymbolTable → Type 0
Kept t t' =
    (f : LanguageFamily) (q id : Text)
    → contains (lookup t f q) id ≡ true
    → contains (lookup t' f q) id ≡ true

module _ (P : LanguageFamily → Text → Bool) where
  -- A change of the table that keeps both.
  pub record Step (t t' : SymbolTable) : Type 0 where
    pub sourced : Sourced P t → Sourced P t'
    pub kept : Kept t t'

  Step-refl : (t : SymbolTable) → Step t t
  Step-refl t = record { sourced = λ s. s; kept = λ f q id h. h }

  Step-trans : (t u v : SymbolTable) → Step t u → Step u v → Step t v
  Step-trans t u v a b = record {
    sourced = λ s. b.sourced (a.sourced s);
    kept = λ f q id h. b.kept f q id (a.kept f q id h);
  }

  module _ (f : LanguageFamily) (n : Text) (allowed : P f n ≡ true) where
    register-Step : (t : SymbolTable) (q : Text) → Step t (register t f q n)
    unfolding contains
    register-Step t q = record {
      sourced = λ s g r id h. ground (
        arith,
        lookup-register t f q n g r,
        contains-append (lookup t f q) (n ∷ []) id,
        s g r id,
        s f q id,
        ==_iff f g,
        ==_iff q r,
        ==_iff n id,
        h,
        allowed,
      );
      kept = λ g r id h. ground (
        arith,
        lookup-register t f q n g r,
        contains-append (lookup t f q) (n ∷ []) id,
        ==_iff f g,
        ==_iff q r,
        h,
      );
    }

    register_under-Step :
        (o : Option Text) (key : Text → Text) (t : SymbolTable)
        → Step t (register_under o key f n t)
    unfolding register_under
    register_under-Step none key t = Step-refl t
    register_under-Step (some p) key t = register-Step t (key p)

    if-Step : (b : Bool) (t u : SymbolTable) → Step t u → Step t (if b then u else t)
    if-Step true t u s = s
    if-Step false t u s = Step-refl t

    register_top_level-Step :
        (p : Prefixes) (name : Text) (t : SymbolTable) → Step t (register_top_level p f name n t)
    unfolding register_top_level
    register_top_level-Step p name t =
        let hash_key : Text → Text = λ prefix. prefix ++ b'#' ∷ name in
        let dot_key : Text → Text = λ module_. module_ ++ b'.' ∷ name in
        let t1 = register_under p.js hash_key f n t in
        let t2 = register_under (index_prefix p.js) hash_key f n t1 in
        let t3 = register_under p.python dot_key f n t2 in
        let t4 = register_under (nonempty p.go) hash_key f n t3 in
        let rust_key : Text → Text = λ prefix. prefix ++ text "::" ++ name in
        let t5 = register_under (nonempty p.rust) rust_key f n t4 in
        Step-trans t t1 t5 (register_under-Step p.js hash_key t) (
          Step-trans t1 t2 t5 (register_under-Step (index_prefix p.js) hash_key t1) (
            Step-trans t2 t3 t5 (register_under-Step p.python dot_key t2) (
              Step-trans t3 t4 t5 (register_under-Step (nonempty p.go) hash_key t3)
                (register_under-Step (nonempty p.rust) rust_key t4))))

    pub parent-Step :
        (p : Prefixes) (name : Text) (t : SymbolTable) (parent : Option ℕ)
        → Step t (elim parent [ some _ ↦ t | none ↦ register_top_level p f name n t ])
    parent-Step p name t (some _) = Step-refl t
    parent-Step p name t none = register_top_level-Step p name t

  register_node-Step :
      (hash : ContentHash) (p : Prefixes) (f : LanguageFamily) (node : Node) (t : SymbolTable)
      → P f (active_node_id hash node.id) ≡ true
      → Step t (register_node hash p f node t)
        × Step
            (register t f node.qname (active_node_id hash node.id))
            (register_node hash p f node t)
  unfolding register_node
  register_node-Step hash p f node t allowed =
      let n = active_node_id hash node.id in
      let b = not (node.name == node.qname) && should_register_bare_name f node.kind in
      let t1 = register t f node.qname n in
      let t2 = if b then register t1 f node.name n else t1 in
      let local_key : Text → Text = λ prefix. js_local_symbol_key prefix node.name in
      let t3 = register_under p.js local_key f n t2 in
      let t4 : SymbolTable = elim node.parent [
        | some _ ↦ t3
        | none ↦ register_top_level p f node.name n t3
      ] in
      let last : Step t3 t4 = parent-Step f n allowed p node.name t3 node.parent in
      let bare =
        if-Step f n allowed b t1 (register t1 f node.name n)
          (register-Step f n allowed t1 node.name) in
      let local = register_under-Step f n allowed p.js local_key t2 in
      let later : Step t1 t4 = Step-trans t1 t2 t4 bare (Step-trans t2 t3 t4 local last) in
      (Step-trans t t1 t4 (register-Step f n allowed t node.qname) later, later)

-- The nodes that a file declares.
abbrev pub declares : ContentHash → List Node → Text → Bool
declares hash nodes id = contains (map (λ (n : Node). active_node_id hash n.id) nodes) id

-- The nodes that the files of a family declare.
unfoldable pub owned : List PreparedFile → LanguageFamily → Text → Bool
owned [] f id = false
owned (prep ∷ rest) f id =
    (language_family prep.language == f && declares prep.content_hash prep.extracted.nodes id)
    || owned rest f id

-- A node of the file has this qualified name and identifier.
unfoldable pub names_node : ContentHash → List Node → Text → Text → Bool
names_node hash [] q id = false
names_node hash (node ∷ nodes) q id =
    (node.qname == q && active_node_id hash node.id == id) || names_node hash nodes q id

unfoldable pub named : List PreparedFile → LanguageFamily → Text → Text → Bool
unfolding names_node
named [] f q id = false
named (prep ∷ rest) f q id =
    (language_family prep.language == f && names_node prep.content_hash prep.extracted.nodes q id)
    || named rest f q id

module _ (P : LanguageFamily → Text → Bool) where
  pub register_nodes-Step :
      (hash : ContentHash) (p : Prefixes) (f : LanguageFamily) (nodes : List Node) (t : SymbolTable)
      → ((id : Text) → declares hash nodes id ≡ true → P f id ≡ true)
      → Step P t (register_nodes hash p f nodes t)
  unfolding register_nodes contains
  register_nodes-Step hash p f [] t h = Step-refl P t
  register_nodes-Step hash p f (node ∷ nodes) t h =
      let n = active_node_id hash node.id in
      let first = register_node-Step P hash p f node t (h n (ground (arith, ==_refl n))) in
      Step-trans P t (register_node hash p f node t)
        (register_nodes hash p f nodes (register_node hash p f node t)) first.0
        (register_nodes-Step hash p f nodes (register_node hash p f node t)
          (λ id d. h id (ground (arith, d))))

  pub register_files-Step :
      (files : List PreparedFile) (t : SymbolTable)
      → ((f : LanguageFamily) (id : Text) → owned files f id ≡ true → P f id ≡ true)
      → Step P t (register_files files t)
  unfolding register_files owned
  register_files-Step [] t h = Step-refl P t
  register_files-Step (prep ∷ rest) t h =
      let f = language_family prep.language in
      let p = prefixes prep.language prep.relative in
      let u = register_nodes prep.content_hash p f prep.extracted.nodes t in
      Step-trans P t u (register_files rest u)
        (register_nodes-Step prep.content_hash p f prep.extracted.nodes t
          (λ id d. h f id (ground (arith, d, ==_refl f))))
        (register_files-Step rest u (λ g id o. h g id (ground (arith, o))))

-- A step with nothing to allow.
abbrev pub anything : LanguageFamily → Text → Bool
anything f id = true

pub contains-register :
    (t : SymbolTable) (f : LanguageFamily) (q n : Text)
    → is_empty q ≡ false
    → contains (lookup (register t f q n) f q) n ≡ true
unfolding contains
contains-register t f q n h = ground (
  arith,
  lookup-register t f q n f q,
  contains-append (lookup t f q) (n ∷ []) n,
  ==_refl f,
  ==_refl q,
  ==_refl n,
  h,
)

register_nodes-found :
    (hash : ContentHash) (p : Prefixes) (f : LanguageFamily) (nodes : List Node) (t : SymbolTable)
    (q id : Text)
    → is_empty q ≡ false
    → names_node hash nodes q id ≡ true
    → contains (lookup (register_nodes hash p f nodes t) f q) id ≡ true
unfolding register_nodes names_node
register_nodes-found hash p f [] t q id some' h = absurd (ground (arith, h))
register_nodes-found hash p f (node ∷ nodes) t q id some' h =
    elim (Bool-cases (node.qname == q && active_node_id hash node.id == id)) [
      | inr other ↦
          register_nodes-found hash p f nodes (register_node hash p f node t) q id some'
            (ground (arith, h, other))
      | inl here ↦
          let n = active_node_id hash node.id in
          let same_q : node.qname ≡ q = ground (arith, here, ==_iff node.qname q) in
          let same_id : n ≡ id = ground (arith, here, ==_iff n id) in
          let after = (register_node-Step anything hash p f node t refl).1 in
          let rest =
            register_nodes-Step anything hash p f nodes (register_node hash p f node t)
              (λ x d. refl) in
          rest.kept f q id
            (after.kept f q id (rw same_q (rw same_id (contains-register t f q id some'))))
    ]

register_files-found :
    (files : List PreparedFile) (t : SymbolTable) (f : LanguageFamily) (q id : Text)
    → is_empty q ≡ false
    → named files f q id ≡ true
    → contains (lookup (register_files files t) f q) id ≡ true
unfolding register_files named
register_files-found [] t f q id some' h = absurd (ground (arith, h))
register_files-found (prep ∷ rest) t f q id some' h =
    let g = language_family prep.language in
    let p = prefixes prep.language prep.relative in
    let u = register_nodes prep.content_hash p g prep.extracted.nodes t in
    elim (Bool-cases (g == f && names_node prep.content_hash prep.extracted.nodes q id)) [
      | inr other ↦ register_files-found rest u f q id some' (ground (arith, h, other))
      | inl here ↦
          let same : g ≡ f = ground (arith, here, ==_iff g f) in
          let found =
            register_nodes-found prep.content_hash p g prep.extracted.nodes t q id some'
              (ground (arith, here)) in
          (register_files-Step anything rest u (λ f id o. refl)).kept f q id
            (subst (λ k. contains (lookup u k q) id ≡ true) same found)
    ]

none_found : (f : LanguageFamily) (q id : Text) → ¬ (contains (lookup default f q) id ≡ true)
unfolding lookup get find contains
none_found f q id h = absurd (ground (arith, h))

-- What the symbol table of a pass holds for a family are nodes that prepared files of this family
-- declare, and every such node with a qualified name is found under it.
pub build_symbol_table_lem :
    (files : List PreparedFile) (f : LanguageFamily) (q id : Text)
    → (contains (lookup (build_symbol_table files) f q) id ≡ true → owned files f id ≡ true)
      × (is_empty q ≡ false
          → named files f q id ≡ true
          → contains (lookup (build_symbol_table files) f q) id ≡ true)
unfolding build_symbol_table
build_symbol_table_lem files f q id =
    let nothing : Sourced (owned files) default = λ g r x h. absurd (none_found g r x h) in
    (
      (register_files-Step (owned files) files default (λ g x o. o)).sourced nothing f q id,
      register_files-found files default f q id,
    )
