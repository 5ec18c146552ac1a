-- ===== src/Resolve.antt =====
-- resolve.rs: the kinds of nodes, references and edges, and the resolver's symbol table.
pub mod Candidates
use xgraph.Prelude.{ℕ, Option, none, some, List, [], ◌∷◌, ◌++◌}
use xgraph.Text.{Text, text_key}
use xgraph.Map.{Map, empty, get, insert}

pub data NodeKind : Type 0 where
  module_ namespace class trait_ interface enum_ function method property constant variable :
      NodeKind
  import_target export_target route view component other : NodeKind

pub data RefKind : Type 0 where
  call inherit implement trait_use import_ export type_reference jsx_component blade_view : RefKind
  decorator unresolved : RefKind

pub data EdgeKind : Type 0 where
  calls inherits implements uses imports exports references routes_to renders : EdgeKind
  dispatches_to listens_for : EdgeKind

pub data Provenance : Type 0 where
  parser_extract laravel_heuristic jsx_component blade_reference import_resolver : Provenance
  type_resolver : Provenance

pub data Confidence : Type 0 where
  low medium high exact : Confidence

pub record ResolutionHints : Type 0 where
  pub current_namespace : Option Text
  pub imports : List (Text × Text)

pub record SymbolTable : Type 0 where
  pub by_qname : Map Text (List ℕ)

unfoldable pub new : SymbolTable
new = record { by_qname = empty }

unfoldable pub resolve_candidates : SymbolTable → Text → List ℕ
resolve_candidates table qname = elim (get table.by_qname qname) [
  | none ↦ []
  | some candidates ↦ candidates
]

-- `entry(qname).or_default().push(node_id)`
unfoldable pub register : SymbolTable → Text → ℕ → SymbolTable
unfolding resolve_candidates
register table qname node_id = record {
  by_qname = insert table.by_qname qname (resolve_candidates table qname ++ node_id ∷ []);
}

-- `candidates.len() == 1`
unfoldable pub single : List ℕ → Option ℕ
single (n ∷ []) = some n
single _ = none

unfoldable pub resolve_exact : SymbolTable → Text → Option ℕ
unfolding single
resolve_exact table qname = elim (get table.by_qname qname) [
  | none ↦ none
  | some candidates ↦ single candidates
]

unfoldable pub classify_unresolved : Text → ResolutionHints → RefKind
classify_unresolved qname hints = RefKind.unresolved
