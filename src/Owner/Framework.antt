-- ===== src/Owner/Framework.antt =====
-- owner.rs: the edges that the framework passes of src/laravel.rs and src/react.rs find, as edge facts.
use xgraph.Prelude.{ℕ, Option, none, some, List, [], ◌∷◌, ◌++◌, map, if◌then◌else◌, ◌==◌, nat_key}
use xgraph.Text.{Text, text, text_key}
use xgraph.Cozo.Facts.{ExtractedFile, Ref, EdgeFact}
use xgraph.Imports.Python.{RelPath}

pub data FrameworkEdgeKind : Type 0 where
  route_to_controller controller_to_model eloquent_relationship facade_call : FrameworkEdgeKind
  service_binding event_listener job_dispatch blade_extends_view : FrameworkEdgeKind
  blade_includes_view blade_uses_component : FrameworkEdgeKind
  react_component react_hook react_uses_hook : FrameworkEdgeKind

pub data Confidence : Type 0 where
  low medium high : Confidence

pub record FrameworkEdge : Type 0 where
  pub kind : FrameworkEdgeKind
  pub from_qname : Text
  pub to_qname : Text
  pub confidence : Confidence

unfoldable pub framework_edge_kind : FrameworkEdgeKind → Text
framework_edge_kind route_to_controller = text "routes_to"
framework_edge_kind controller_to_model = text "uses_model"
framework_edge_kind eloquent_relationship = text "relates_to"
framework_edge_kind facade_call = text "facade_call"
framework_edge_kind service_binding = text "binds"
framework_edge_kind event_listener = text "dispatches_event"
framework_edge_kind job_dispatch = text "dispatches_job"
framework_edge_kind blade_extends_view = text "extends_view"
framework_edge_kind blade_includes_view = text "includes_view"
framework_edge_kind blade_uses_component = text "uses_component"
framework_edge_kind react_component = text "react_component"
framework_edge_kind react_hook = text "react_hook"
framework_edge_kind react_uses_hook = text "react_uses_hook"

unfoldable pub framework_confidence : Confidence → ℕ
framework_confidence low = 40
framework_confidence medium = 70
framework_confidence high = 90

-- what `append_framework_edges` appends; `facts.edges` are the argument
unfoldable pub framework_facts : List FrameworkEdge → List EdgeFact
unfolding framework_edge_kind framework_confidence
framework_facts edges =
    map
      (λ (e : FrameworkEdge). record {
        source_node_id = text "lh:" ++ e.from_qname;
        kind = framework_edge_kind e.kind;
        target_node_id = text "lh:" ++ e.to_qname;
        provenance = text "laravel_heuristic";
        confidence = framework_confidence e.confidence;
      })
      edges

pub data BladeRefKind : Type 0 where
  extends_view includes_view component x_component : BladeRefKind

pub record BladeRef : Type 0 where
  pub kind : BladeRefKind
  pub value : Text
  pub start : ℕ
  pub end : ℕ

unfoldable pub blade_ref_kind : Text → Option BladeRefKind
blade_ref_kind kind =
    if kind == text "blade_extends"
    then some extends_view
    else if kind == text "blade_view"
    then some includes_view
    else if kind == text "blade_component"
    then some component
    else if kind == text "blade_x_component"
    then some x_component
    else none

unfoldable pub blade_refs : List Ref → List BladeRef
unfolding blade_ref_kind
blade_refs [] = []
blade_refs (r ∷ refs) =
    let rest = blade_refs refs in
    elim (blade_ref_kind r.kind) [
      | none ↦ rest
      | some kind ↦
          record { kind = kind; value = r.name; start = r.span.start.byte; end = r.span.end.byte }
          ∷ rest
    ]

pub record BladeExtractInput : Type 0 where
  pub path : RelPath
  pub refs : List BladeRef

unfoldable pub blade_input_from_extracted : RelPath → ExtractedFile → BladeExtractInput
unfolding blade_refs
blade_input_from_extracted relative extracted = record {
  path = relative;
  refs = blade_refs extracted.refs;
}
