-- ===== src/Graph/View.antt =====
-- crates/nfctl-graph/src/view.rs: the graph that is drawn.
pub mod Build
pub mod Partition
pub mod Collapse
pub mod Groups
pub mod Located
pub mod Pairs
pub mod Views
pub mod Endpoints
use nfctl.Common.{ℕ, String, Bool, true, false, List, [], ◌∷◌, Option, none, some, ltb, length, map}
use nfctl.Model.Ids.{VertexName, join}
use nfctl.Model.Topology.{VertexKind, TagOperator, TagCondition}

-- The position of a node; `NodeId` holds a `u32`.
abbrev pub NodeId : Type 0
NodeId = ℕ

pub record ViewNode : Type 0 where
  pub label : String
  pub kind : VertexKind
  pub members : List VertexName
  pub partitions : ℕ

-- `ViewNode::is_group`
abbrev pub is_group : ViewNode → Bool
is_group n = ltb 1 (length n.members)

pub record ViewEdge : Type 0 where
  pub from : NodeId
  pub to : NodeId
  pub tags : List String
  pub lossy : Bool
  pub members : List (VertexName × VertexName)

pub record ViewGraph : Type 0 where
  pub nodes : List ViewNode
  pub edges : List ViewEdge

-- `values.join(sep)`
unfoldable pub join_all : String → List String → String
join_all sep [] = ""
join_all sep (x ∷ []) = x
join_all sep (x ∷ y ∷ xs) = join x (join sep (join_all sep (y ∷ xs)))

abbrev pub tags_by : TagOperator → List String → List String
tags_by TagOperator.not_ values = map (join "not ") values
tags_by TagOperator.and values = join_all " & " values ∷ []
tags_by TagOperator.or values = values

-- `tag_strings`
unfoldable pub tag_strings : Option TagCondition → List String
tag_strings none = []
tag_strings (some c) = tags_by c.operator c.values
