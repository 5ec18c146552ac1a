-- ===== src/Handlers/Related.antt =====
-- handlers.rs: node summaries, pages of related nodes, and the neighbours of a type's members. A
-- JSON object is a record of its fields.
pub mod Pages
pub mod Members
use xgraph.Prelude.{
  ℕ, zero, suc, ◌+◌, ◌-◌, min, ltb, leb, Bool, true, false, ◌&&◌, ◌||◌, Option, none, some, List,
  [], ◌∷◌, ◌++◌, map, Key, ◌==◌, if◌then◌else◌, contains, length, take, drop, retain, is_empty,
}
use xgraph.Text.{Text, text, text_key, starts_with}
use xgraph.Indexes.State.{HotIndexes, NodeId, NodeRecord, get_node, nodes_in_file}
use xgraph.Indexes.Edges.{callees_of, callers_of}

pub record Summary : Type 0 where
  pub node_id : NodeId
  pub node : Option NodeRecord

unfoldable pub summarize_node : HotIndexes → NodeId → Summary
unfolding get_node
summarize_node idx id = record { node_id = id; node = get_node idx id }

abbrev pub unwrap_or : Option ℕ → ℕ → ℕ
unwrap_or none d = d
unwrap_or (some n) d = n

unfoldable pub page_bounds : ℕ → Option ℕ → Option ℕ → ℕ → ℕ → ℕ × ℕ
page_bounds total offset limit default_limit max_limit =
    let start = min (unwrap_or offset 0) total in
    (start, min (unwrap_or limit (min default_limit (total - start))) max_limit)

pub record RelatedPage : Type 0 where
  pub node_ids : List NodeId
  pub nodes : List Summary
  pub total : ℕ
  pub offset : ℕ
  pub limit : ℕ
  pub truncated : Bool

unfoldable pub related_nodes_payload : HotIndexes → List NodeId → Option ℕ → Option ℕ → RelatedPage
unfolding page_bounds summarize_node
related_nodes_payload idx ids limit offset =
    let total = length ids in
    let bounds = page_bounds total offset limit 200 1000 in
    let page = take bounds.1 (drop bounds.0 ids) in
    record {
      node_ids = page;
      nodes = map (summarize_node idx) page;
      total = total;
      offset = bounds.0;
      limit = bounds.1;
      truncated = ltb (bounds.0 + bounds.1) total;
    }

unfoldable pub has_members : Text → Bool
has_members kind =
    kind == text "class"
    || kind == text "interface"
    || kind == text "trait"
    || kind == text "enum"
    || kind == text "component"

unfoldable pub is_member : HotIndexes → Text → NodeId → Bool
unfolding get_node starts_with
is_member idx qname_prefix id = elim (get_node idx id) [
  | none ↦ false
  | some member ↦ starts_with member.qname qname_prefix
]

unfoldable pub member_node_ids : HotIndexes → NodeRecord → ℕ → List NodeId
unfolding has_members is_member retain nodes_in_file
member_node_ids idx owner limit =
    if has_members owner.kind
    then take limit
        (retain (is_member idx (owner.qname ++ text "::")) (nodes_in_file idx owner.path))
    else []

pub data RelatedDirection : Type 0 where
  callers callees : RelatedDirection

unfoldable pub related : HotIndexes → RelatedDirection → NodeId → List NodeId
unfolding callers_of callees_of
related idx callers id = callers_of idx id
related idx callees id = callees_of idx id

-- the loops of `aggregate_member_related`: the limit is reached, or they go on
pub data Gathered : Type 0 where
  full : List Summary → Gathered
  open_ : List NodeId → List Summary → Gathered

unfoldable pub gather_related :
    HotIndexes → List NodeId → ℕ → List NodeId → List NodeId → List Summary → Gathered
unfolding contains summarize_node
gather_related idx members limit [] seen out = open_ seen out
gather_related idx members limit (id ∷ rest) seen out =
    if contains members id || contains seen id
    then gather_related idx members limit rest seen out
    else if leb limit (length (out ++ summarize_node idx id ∷ []))
    then full (out ++ summarize_node idx id ∷ [])
    else gather_related idx members limit rest (id ∷ seen) (out ++ summarize_node idx id ∷ [])

unfoldable pub gather_members :
    HotIndexes
    → RelatedDirection
    → List NodeId
    → ℕ
    → List NodeId
    → List NodeId
    → List Summary
    → List Summary
unfolding gather_related related
gather_members idx direction members limit [] seen out = out
gather_members idx direction members limit (member ∷ rest) seen out =
    elim (gather_related idx members limit (related idx direction member) seen out) [
      | full out' ↦ out'
      | open_ seen' out' ↦ gather_members idx direction members limit rest seen' out'
    ]

unfoldable pub aggregate_member_related :
    HotIndexes → List NodeId → RelatedDirection → ℕ → List Summary
unfolding gather_members
aggregate_member_related idx member_ids direction limit =
    gather_members idx direction member_ids limit member_ids [] []
