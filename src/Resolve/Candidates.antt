-- ===== src/Resolve/Candidates.antt =====
-- What the symbol table resolves after any registrations.
use xgraph.Prelude.{
  ℕ, none, some, is_empty, List, [], ◌∷◌, ◌++◌, ◌≡◌, ◌==◌, ==_iff, if◌then◌else◌, refl, ◌∙◌, sym,
  ap, append_assoc, append-nil, arith, Option-cases, inl, inr,
}
use xgraph.Text.{Text, text_key}
use xgraph.Map.{get, get-insert, find}
use xgraph.Resolve.{SymbolTable, new, register, resolve_candidates, resolve_exact, single}

abbrev pub register_all : SymbolTable → List (Text × ℕ) → SymbolTable
register_all table [] = table
register_all table ((qname, node_id) ∷ entries) =
    register_all (register table qname node_id) entries

-- The nodes registered under a name, in order.
abbrev pub registered : List (Text × ℕ) → Text → List ℕ
registered [] q = []
registered ((qname, node_id) ∷ entries) q =
    (if qname == q then node_id ∷ [] else []) ++ registered entries q

resolve_candidates-register :
    (table : SymbolTable) (qname : Text) (node_id : ℕ) (q : Text)
    → resolve_candidates (register table qname node_id) q
      ≡ resolve_candidates table q ++ (if qname == q then node_id ∷ [] else [])
unfolding register resolve_candidates
resolve_candidates-register table qname node_id q = ground (
  arith,
  get-insert table.by_qname qname (resolve_candidates table qname ++ node_id ∷ []) q,
  ==_iff qname q,
  append-nil (resolve_candidates table q),
)

resolve_candidates-register_all :
    (table : SymbolTable) (entries : List (Text × ℕ)) (q : Text)
    → resolve_candidates (register_all table entries) q
      ≡ resolve_candidates table q ++ registered entries q
resolve_candidates-register_all table [] q = sym (append-nil (resolve_candidates table q))
resolve_candidates-register_all table ((qname, node_id) ∷ entries) q =
    resolve_candidates-register_all (register table qname node_id) entries q
    ∙ ap (λ l. l ++ registered entries q) (resolve_candidates-register table qname node_id q)
    ∙ append_assoc (resolve_candidates table q) (if qname == q then node_id ∷ [] else [])
        (registered entries q)

single-candidates :
    (table : SymbolTable) (q : Text) → resolve_exact table q ≡ single (resolve_candidates table q)
unfolding resolve_exact resolve_candidates single
single-candidates table q = elim (Option-cases (get table.by_qname q)) [
  | inl e ↦ ground (arith, e)
  | inr (l, e) ↦ ground (arith, e)
]

fresh : (q : Text) → resolve_candidates new q ≡ []
unfolding resolve_candidates new get find
fresh q = refl

single_lem :
    (l : List ℕ)
    → single l ≡ elim l [ [] ↦ none | n ∷ rest ↦ if is_empty rest then some n else none ]
unfolding single
single_lem [] = refl
single_lem (n ∷ []) = refl
single_lem (n ∷ m ∷ rest) = refl

-- After any registrations a name has as candidates the nodes registered under it, in order, and it
-- resolves to a node exactly if this node's registration is the only one of the name.
pub resolve_exact_lem :
    (entries : List (Text × ℕ)) (q : Text)
    → let table = register_all new entries in
      (resolve_candidates table q ≡ registered entries q)
      × (resolve_exact table q ≡ elim (registered entries q) [
        | [] ↦ none
        | n ∷ rest ↦ if is_empty rest then some n else none
      ])
resolve_exact_lem entries q =
    let all : resolve_candidates (register_all new entries) q ≡ registered entries q =
      resolve_candidates-register_all new entries q
      ∙ ap (λ l. l ++ registered entries q) (fresh q) in
    (
      all,
      single-candidates (register_all new entries) q
          ∙ ap single all
          ∙ single_lem (registered entries q),
    )
