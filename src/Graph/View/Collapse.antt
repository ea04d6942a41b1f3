-- ===== src/Graph/View/Collapse.antt =====
-- `ViewGraph::collapsed` (crates/nfctl-graph/src/view.rs): shards `stem-N` drawn as one node. A map by
-- stem is the function that gives the entry of a stem.
use nfctl.Common.{
  ℕ, String, Bool, ◌&&◌, List, [], ◌∷◌, Option, none, some, ◌==◌, string_eq, option_eq, nat_eq,
  or_else, map, keep, all, any, length, leb, if◌then◌else◌,
}
use mathlib.Core.Option
use nfctl.Common.Sort.{sort_by}
use nfctl.Model.Ids.{VertexName}
use nfctl.Model.Topology.{VertexKind, vertex_kind_eq, Vertex, Edge, Topology, vertex}
use nfctl.Graph.Shards.{stem_of, index_of, norm_tags}
use nfctl.Graph.View.{ViewGraph, tag_strings}
use nfctl.Graph.View.Build.{Grouping, build, same_strings}

-- `by_stem.get(stem)`: the shards of a stem, in the order of the vertices.
unfoldable pub shards_of : Topology → String → List VertexName
shards_of t stem = keep (λ n. stem_of n == some stem) (map (λ v. v.name) t.vertices)

-- `candidate_stem`
abbrev pub candidate_stem : Topology → VertexName → Option String
candidate_stem t n =
    Option.bind (stem_of n) (λ s. if leb 2 (length (shards_of t s)) then some s else none)

-- `outside`
abbrev pub outside : Topology → VertexName → String
outside t n = or_else (candidate_stem t n) n

-- A `BTreeSet`, as the list of what was put in.
abbrev pub Neighbours : Type 0
Neighbours = List (String × List String)

abbrev same_neighbour : String × List String → String × List String → Bool
same_neighbour a b = a.0 == b.0 && same_strings a.1 b.1

abbrev subset : Neighbours → Neighbours → Bool
subset xs ys = all (λ x. any (same_neighbour x) ys) xs

unfoldable pub same_neighbours : Neighbours → Neighbours → Bool
same_neighbours xs ys = subset xs ys && subset ys xs

pub record Signature : Type 0 where
  pub kind : VertexKind
  pub partitions : ℕ
  pub ins : Neighbours
  pub outs : Neighbours

abbrev kind_and_partitions : Option Vertex → VertexKind × ℕ
kind_and_partitions none = (VertexKind.map, 1)
kind_and_partitions (some v) = (v.kind, v.partitions)

abbrev edge_norm : VertexName → Edge → List String
edge_norm n e = norm_tags (tag_strings e.conditions) (index_of n)

unfoldable pub signature : Topology → VertexName → Signature
signature t n = record {
  kind = (kind_and_partitions (vertex t n)).0;
  partitions = (kind_and_partitions (vertex t n)).1;
  ins = map (λ e. (outside t e.from, edge_norm n e)) (keep (λ e. e.to == n) t.edges);
  outs = map (λ e. (outside t e.to, edge_norm n e)) (keep (λ e. e.from == n) t.edges);
}

unfoldable pub same_signature : Signature → Signature → Bool
same_signature a b =
    (a.kind == b.kind && a.partitions == b.partitions)
    && (same_neighbours a.ins b.ins && same_neighbours a.outs b.outs)

abbrev pub by_index : VertexName → VertexName → Bool
by_index a b = leb (or_else (index_of a) 0) (or_else (index_of b) 0)

-- The body of the loop over the stems.
unfoldable pub accept : Topology → List VertexName → Option (List VertexName)
accept t [] = none
accept t (first ∷ []) = none
accept t (first ∷ second ∷ rest) =
    if all (λ m. same_signature (signature t m) (signature t first)) (first ∷ second ∷ rest)
    then some (sort_by by_index (first ∷ second ∷ rest))
    else none

-- `accepted.get(stem)`, with the stem.
abbrev pub accepted : Topology → String → Option (String × List VertexName)
accepted t stem = Option.map (λ ms. (stem, ms)) (accept t (shards_of t stem))

unfoldable pub shard_group : Topology → Grouping
shard_group t name = Option.bind (stem_of name) (accepted t)

-- `ViewGraph::collapsed`
unfoldable pub collapsed : Topology → ViewGraph
collapsed t = build t (shard_group t)
