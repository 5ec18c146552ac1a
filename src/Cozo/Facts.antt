-- ===== src/Cozo/Facts.antt =====
-- extract.rs: what a language plugin returns. cozo.rs: what the writer stores of it
-- (`FileUpdate::from_extracted`). `u32` casts keep their wrap-around.
use xgraph.Prelude.{ℕ, ◌%◌, ◌^◌, Option, List, [], map}
use xgraph.Text.{Text, text}
use mathlib.Core.Option

-- extract.rs
pub record Position : Type 0 where
  pub byte : ℕ
  pub row : ℕ
  pub column : ℕ

pub record SourceSpan : Type 0 where
  pub start : Position
  pub end : Position

pub data Severity : Type 0 where
  warning error : Severity

pub record Node : Type 0 where
  pub id : ℕ
  pub kind : Text
  pub name : Text
  pub qname : Text
  pub span : SourceSpan
  pub parent : Option ℕ

pub record Ref : Type 0 where
  pub id : ℕ
  pub kind : Text
  pub name : Text
  pub qname : Option Text
  pub alias : Option Text
  pub span : SourceSpan
  pub container : Option ℕ

pub record SourceDiagnostic : Type 0 where
  pub severity : Severity
  pub message : Text
  pub span : Option SourceSpan

pub record ExtractedFile : Type 0 where
  pub path : Text
  pub nodes : List Node
  pub refs : List Ref
  pub diagnostics : List SourceDiagnostic

-- cozo.rs; a content hash is its bytes
abbrev pub ContentHash : Type 0
ContentHash = List ℕ

pub record Span : Type 0 where
  pub start_byte : ℕ
  pub end_byte : ℕ
  pub start_row : ℕ
  pub start_col : ℕ

pub record NodeFact : Type 0 where
  pub local_node_id : ℕ
  pub kind : Text
  pub name : Text
  pub qname : Text
  pub span : Span

pub record RefFact : Type 0 where
  pub local_ref_id : ℕ
  pub kind : Text
  pub name : Text
  pub span : Span

pub record EdgeFact : Type 0 where
  pub source_node_id : Text
  pub kind : Text
  pub target_node_id : Text
  pub provenance : Text
  pub confidence : ℕ

pub record Diagnostic : Type 0 where
  pub severity : Text
  pub message : Text
  pub span : Option Span

pub record FileUpdate : Type 0 where
  pub path : Text
  pub content_hash : ContentHash
  pub language : Text
  pub parser_version : ℕ
  pub mtime : ℕ
  pub size : ℕ
  pub generation : ℕ
  pub diagnostics : List Diagnostic
  pub nodes : List NodeFact
  pub refs : List RefFact
  pub edges : List EdgeFact

pub record FileUpdateMetadata : Type 0 where
  pub content_hash : ContentHash
  pub language : Text
  pub parser_version : ℕ
  pub mtime : ℕ
  pub size : ℕ
  pub generation : ℕ

-- `x as u32`
as_u32 : ℕ → ℕ
as_u32 x = x % 2 ^ 32

unfoldable pub span_from_extract : SourceSpan → Span
unfolding as_u32
span_from_extract s = record {
  start_byte = as_u32 s.start.byte;
  end_byte = as_u32 s.end.byte;
  start_row = as_u32 s.start.row;
  start_col = as_u32 s.start.column;
}

unfoldable pub severity_label : Severity → Text
severity_label error = text "error"
severity_label warning = text "warning"

unfoldable pub from_extracted : ExtractedFile → FileUpdateMetadata → FileUpdate
unfolding span_from_extract severity_label
from_extracted extracted metadata = record {
  path = extracted.path;
  content_hash = metadata.content_hash;
  language = metadata.language;
  parser_version = metadata.parser_version;
  mtime = metadata.mtime;
  size = metadata.size;
  generation = metadata.generation;
  diagnostics =
      map
        (λ (d : SourceDiagnostic). record {
          severity = severity_label d.severity;
          message = d.message;
          span = Option.map span_from_extract d.span;
        })
        extracted.diagnostics;
  nodes =
      map
        (λ (n : Node). record {
          local_node_id = n.id;
          kind = n.kind;
          name = n.name;
          qname = n.qname;
          span = span_from_extract n.span;
        })
        extracted.nodes;
  refs =
      map
        (λ (r : Ref). record {
          local_ref_id = r.id;
          kind = r.kind;
          name = r.name;
          span = span_from_extract r.span;
        })
        extracted.refs;
  edges = [];
}
