-- ===== src/Tests/Views.antt =====
-- The views of crates/nfctl-graph/src/view.rs on a pipeline with two shards.
use nfctl.Common.{String, ◌≡◌, refl, ok, [], ◌∷◌, some, map, keep, any, all, contains, find}
use mathlib.Core.Option
use native.Mathlib.Omega.{arith}
use nfctl.Model.Ids.{join}
use nfctl.Model.Topology.{
  VertexKind, source, sink, Edge, Topology, TagOperator, check_vertices, check_edges, check_ends_of,
  kind_of, new, vertex, retry_until_success,
}
use nfctl.Model.Topology.Valid.{IsValid, new_iff}
use nfctl.Graph.Shards.{
  rsplit_dash, all_digits, parse_u32, shard_split, strip_suffix, digits, decimal, norm_tags,
}
use nfctl.Graph.View.{tag_strings}
use nfctl.Graph.View.Build.{
  node_at, insert_members, build_nodes, get_elem?, same_strings, merge, add_edge, build_edges,
  build, expanded, position, node_of,
}
use nfctl.Graph.View.Collapse.{
  shards_of, same_neighbours, signature, same_signature, accept, shard_group, collapsed,
}
use nfctl.Graph.View.Pairs.{between}
use nfctl.Graph.View.Endpoints.{Pictures, views-Pictures}
use nfctl.Graph.View.Views.{Parts, collapsed-Parts}
use nfctl.Tests.Shapes.{v, e}

abbrev routed : String → String → String → Edge
routed from to tag = record {
  from = from;
  to = to;
  conditions = some (record { operator = TagOperator.or; values = tag ∷ [] });
  on_full = retry_until_success;
}

-- `in` routes to `hot-0` and `hot-1` by a tag with their index.
abbrev sharded : Topology
sharded = record {
  vertices =
      v "in" source 1
      ∷ v "hot-0" VertexKind.map 1
      ∷ v "hot-1" VertexKind.map 1
      ∷ v "out" sink 1
      ∷ [];
  edges =
      routed "in" "hot-0" "t-0"
      ∷ routed "in" "hot-1" "t-1"
      ∷ e "hot-0" "out"
      ∷ e "hot-1" "out"
      ∷ [];
}

new-sharded : new sharded.vertices sharded.edges ≡ ok sharded
unfolding new check_vertices check_edges check_ends_of kind_of contains find
new-sharded = refl

sharded-IsValid : IsValid sharded.vertices sharded.edges
sharded-IsValid = ((new_iff sharded.vertices sharded.edges sharded).0 new-sharded).0

collapsed_labels : map (λ n. n.label) (collapsed sharded).nodes ≡ "in" ∷ "hot ×2" ∷ "out" ∷ []
unfolding collapsed build build_nodes node_at insert_members shard_group shard_split rsplit_dash
    all_digits parse_u32 accept shards_of keep all any same_signature same_neighbours signature
    norm_tags tag_strings strip_suffix decimal digits join same_strings vertex find Option.bind
collapsed_labels = refl

collapsed_tags : map (λ x. x.tags) (collapsed sharded).edges ≡ ("t-*" ∷ []) ∷ [] ∷ []
unfolding collapsed build build_nodes build_edges add_edge merge get_elem? node_at insert_members
    shard_group shard_split rsplit_dash all_digits parse_u32 accept shards_of keep all any
    same_signature same_neighbours signature norm_tags tag_strings strip_suffix decimal digits join
    same_strings vertex find Option.bind
collapsed_tags = refl

-- A group whose second shard is at `hot-1`.
node_of-hot : node_of (collapsed sharded) "hot-1" ≡ some 1
unfolding node_of position contains collapsed build build_nodes node_at insert_members shard_group
    shard_split rsplit_dash all_digits parse_u32 accept shards_of keep all any same_signature
    same_neighbours signature norm_tags tag_strings strip_suffix decimal digits join same_strings
    vertex find Option.bind
node_of-hot = refl

collapsed-Parts_example : Parts sharded (collapsed sharded) × Parts sharded (expanded sharded)
collapsed-Parts_example = collapsed-Parts sharded sharded-IsValid

views-Pictures_example :
    Pictures sharded (collapsed sharded) (keep (between (collapsed sharded).nodes) sharded.edges)
    × Pictures sharded (expanded sharded) sharded.edges
views-Pictures_example = views-Pictures sharded sharded-IsValid (omega arith)
