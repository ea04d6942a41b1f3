-- ===== src/Model/Topology/Diff.antt =====
-- `Topology::diff` and `TopologyDiff` (crates/nfctl-core/src/model/topology.rs): what changes when
-- one topology is replaced by another.
pub mod Fields
pub mod Laws
pub mod Changes
use nfctl.Common.{
  ℕ, suc, String, Bool, true, false, ◌&&◌, ◌||◌, not, List, [], ◌∷◌, ◌++◌, Option, none, some,
  PartialEq, ◌==◌, string_eq, pair_eq, option_eq, nat_eq, if◌then◌else◌, is_empty, any,
}
use nfctl.Model.Ids.{VertexName}
use nfctl.Model.Topology.{VertexKind, vertex_kind_eq, Vertex, Edge, Topology, ends, vertex}

pub record TopologyDiff : Type 0 where
  pub added_vertices : List VertexName
  pub removed_vertices : List VertexName
  pub added_edges : List (VertexName × VertexName)
  pub removed_edges : List (VertexName × VertexName)
  pub kind_changed : List (VertexName × VertexKind × VertexKind)
  pub partitions_changed : List (VertexName × ℕ × ℕ)
  pub image_changed : List VertexName

abbrev pub no_diff : TopologyDiff
no_diff = record {
  added_vertices = [];
  removed_vertices = [];
  added_edges = [];
  removed_edges = [];
  kind_changed = [];
  partitions_changed = [];
  image_changed = [];
}

-- `Vec::push`
abbrev pub push {ℓ} : {A : Type ℓ} → List A → A → List A
push xs x = xs ++ x ∷ []

-- The three tests on a vertex `v` that was there before as `old`, in turn.
note_kind : Vertex → Vertex → TopologyDiff → TopologyDiff
note_kind old v d =
    if old.kind == v.kind
    then d
    else record d { kind_changed = push d.kind_changed (v.name, old.kind, v.kind) }

note_partitions : Vertex → Vertex → TopologyDiff → TopologyDiff
note_partitions old v d = if old.partitions == v.partitions then d else record d {
  partitions_changed = push d.partitions_changed (v.name, old.partitions, v.partitions);
}

note_image : Vertex → Vertex → TopologyDiff → TopologyDiff
note_image old v d =
    if old.image == v.image then d else record d { image_changed = push d.image_changed v.name }

unfoldable pub note_vertex : Vertex → Option Vertex → TopologyDiff → TopologyDiff
unfolding note_kind note_partitions note_image
note_vertex v none d = record d { added_vertices = push d.added_vertices v.name }
note_vertex v (some old) d = note_image old v (note_partitions old v (note_kind old v d))

-- The four loops.
unfoldable pub diff_vertices : Topology → List Vertex → TopologyDiff → TopologyDiff
diff_vertices self [] d = d
diff_vertices self (v ∷ vs) d = diff_vertices self vs (note_vertex v (vertex self v.name) d)

unfoldable pub note_removed : Vertex → Option Vertex → TopologyDiff → TopologyDiff
note_removed v none d = record d { removed_vertices = push d.removed_vertices v.name }
note_removed v (some _) d = d

unfoldable pub diff_removed : Topology → List Vertex → TopologyDiff → TopologyDiff
diff_removed new [] d = d
diff_removed new (v ∷ vs) d = diff_removed new vs (note_removed v (vertex new v.name) d)

-- `edges.iter().any(|o| key(o) == key(e))`
abbrev pub has_edge : List Edge → Edge → Bool
has_edge es e = any (λ o. ends o == ends e) es

unfoldable pub diff_added_edges : List Edge → List Edge → TopologyDiff → TopologyDiff
diff_added_edges before [] d = d
diff_added_edges before (e ∷ es) d =
    diff_added_edges before es
      (if has_edge before e then d else record d { added_edges = push d.added_edges (ends e) })

unfoldable pub diff_removed_edges : List Edge → List Edge → TopologyDiff → TopologyDiff
diff_removed_edges after [] d = d
diff_removed_edges after (e ∷ es) d =
    diff_removed_edges after es
      (if has_edge after e then d else record d { removed_edges = push d.removed_edges (ends e) })

-- `self.diff(new)`
unfoldable pub diff : Topology → Topology → TopologyDiff
diff self new = diff_removed_edges new.edges self.edges (
    diff_added_edges self.edges new.edges
      (diff_removed new self.vertices (diff_vertices self new.vertices no_diff)))

-- `TopologyDiff::shape_changed`
unfoldable pub shape_changed : TopologyDiff → Bool
shape_changed d = not (
    is_empty d.added_vertices
    && is_empty d.removed_vertices
    && is_empty d.added_edges
    && is_empty d.removed_edges)
