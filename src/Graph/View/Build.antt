-- ===== src/Graph/View/Build.antt =====
-- `ViewGraph::build` (crates/nfctl-graph/src/view.rs).
use Prim.Native.Nat.{zero, suc}
use nfctl.Common.{
  ℕ, String, Bool, true, false, ◌&&◌, ◌||◌, not, List, [], ◌∷◌, ◌++◌, Option, none, some, ◌==◌,
  string_eq, nat_eq, is_some, length, if◌then◌else◌, contains,
}
use nfctl.Model.Ids.{VertexName, join}
use nfctl.Model.Pipeline.{saturate}
use nfctl.Model.Topology.{Vertex, OnFull, retry_until_success, discard_latest, Edge, Topology, ends}
use nfctl.Graph.Shards.{index_of, decimal, norm_tags}
use nfctl.Graph.View.{NodeId, ViewNode, is_group, ViewEdge, ViewGraph, tag_strings}

-- The group of a vertex, if it is in one: the stem and the members.
abbrev pub Grouping : Type 0
Grouping = VertexName → Option (String × List VertexName)

-- The `BTreeMap` from names to nodes, the last entry first.
abbrev pub NodeMap : Type 0
NodeMap = List (VertexName × NodeId)

unfoldable pub node_at : NodeMap → VertexName → Option NodeId
node_at [] n = none
node_at ((m, id) ∷ rest) n = if m == n then some id else node_at rest n

-- The loop that inserts the members of a new node.
unfoldable pub insert_members : NodeId → List VertexName → NodeMap → NodeMap
insert_members id [] node_of = node_of
insert_members id (m ∷ ms) node_of = insert_members id ms ((m, id) ∷ node_of)

abbrev pub label_of : VertexName → Option (String × List VertexName) → String
label_of n none = n
label_of n (some (stem, ms)) = join stem (join " ×" (decimal (length ms)))

abbrev pub members_of : VertexName → Option (String × List VertexName) → List VertexName
members_of n none = n ∷ []
members_of n (some (stem, ms)) = ms

abbrev pub node_for : Grouping → Vertex → ViewNode
node_for group_of v = record {
  label = label_of v.name (group_of v.name);
  kind = v.kind;
  members = members_of v.name (group_of v.name);
  partitions = v.partitions;
}

-- The loop over the vertices.
unfoldable pub build_nodes :
    Grouping → List Vertex → List ViewNode → NodeMap → List ViewNode × NodeMap
build_nodes group_of [] nodes node_of = (nodes, node_of)
build_nodes group_of (v ∷ vs) nodes node_of =
    let skip = build_nodes group_of vs nodes node_of in
    let n = node_for group_of v in
    let add =
      build_nodes group_of vs (nodes ++ n ∷ [])
        (insert_members (saturate (length nodes)) n.members node_of) in
    if is_some (node_at node_of v.name) then skip else add

unfoldable pub get_elem? {ℓ} : {A : Type ℓ} → List A → ℕ → Option A
get_elem? [] i = none
get_elem? (x ∷ xs) zero = some x
get_elem? (x ∷ xs) (suc i) = get_elem? xs i

abbrev group_node : Option ViewNode → Bool
group_node none = false
group_node (some n) = is_group n

-- `nodes[id].is_group()`; an id that `build` makes is in range unless there are 2 ^ 32 nodes.
abbrev pub in_group : List ViewNode → NodeId → Bool
in_group nodes id = group_node (get_elem? nodes id)

unfoldable pub same_strings : List String → List String → Bool
same_strings [] [] = true
same_strings (x ∷ xs) (y ∷ ys) = x == y && same_strings xs ys
same_strings _ _ = false

abbrev pub normed : List ViewNode → NodeId → VertexName → List String → List String
normed nodes id end tags = if in_group nodes id then norm_tags tags (index_of end) else tags

-- The tags of an edge between two nodes.
abbrev pub edge_tags : List ViewNode → NodeId → NodeId → Edge → List String
edge_tags nodes from to e =
    normed nodes to e.to (normed nodes from e.from (tag_strings e.conditions))

abbrev pub is_lossy : OnFull → Bool
is_lossy discard_latest = true
is_lossy retry_until_success = false

-- `edges.iter_mut().find(..)`, and what is done with what it finds.
unfoldable pub merge :
    (from to : NodeId)
    → (tags : List String) → (lossy : Bool) → VertexName × VertexName
    → List ViewEdge
    → List ViewEdge
merge from to tags lossy p [] =
    record { from = from; to = to; tags = tags; lossy = lossy; members = p ∷ [] } ∷ []
merge from to tags lossy p (x ∷ xs) =
    let rest = merge from to tags lossy p xs in
    if (x.from == from && x.to == to) && same_strings x.tags tags
    then record x { lossy = x.lossy || lossy; members = x.members ++ p ∷ [] } ∷ xs
    else x ∷ rest

-- An edge between two shards of one group.
abbrev pub intra : List ViewNode → NodeId → NodeId → Edge → Bool
intra nodes from to e = (from == to && in_group nodes from) && not (e.from == e.to)

-- The body of the loop over the edges, once both ends are looked up.
unfoldable pub add_edge :
    List ViewNode → Edge → Option NodeId → Option NodeId → List ViewEdge → List ViewEdge
add_edge nodes e (some from) (some to) edges =
    if intra nodes from to e
    then edges
    else merge from to (edge_tags nodes from to e) (is_lossy e.on_full) (ends e) edges
add_edge nodes e _ _ edges = edges

unfoldable pub build_edges : List ViewNode → NodeMap → List Edge → List ViewEdge → List ViewEdge
build_edges nodes node_of [] edges = edges
build_edges nodes node_of (e ∷ es) edges =
    build_edges nodes node_of es
      (add_edge nodes e (node_at node_of e.from) (node_at node_of e.to) edges)

-- `ViewGraph::build`
unfoldable pub build : Topology → Grouping → ViewGraph
build t group_of =
    let made = build_nodes group_of t.vertices [] [] in
    record { nodes = made.0; edges = build_edges made.0 made.1 t.edges [] }

-- `ViewGraph::expanded`
unfoldable pub expanded : Topology → ViewGraph
expanded t = build t (λ _. none)

unfoldable pub position : VertexName → List ViewNode → ℕ → Option ℕ
position name [] i = none
position name (n ∷ ns) i = if contains n.members name then some i else position name ns (suc i)

abbrev saturated : Option ℕ → Option NodeId
saturated none = none
saturated (some i) = some (saturate i)

-- `ViewGraph::node_of`
unfoldable pub node_of : ViewGraph → VertexName → Option NodeId
node_of g name = saturated (position name g.nodes 0)
