-- ===== src/Tests/Shapes.antt =====
-- Topologies and their diffs (crates/nfctl-core/src/model/topology.rs).
use nfctl.Common.{
  ℕ, String, ◌≡◌, ◌≢◌, refl, ok, err, List, [], ◌∷◌, none, false, Memᴰ, map, find, any, contains,
}
use nfctl.Model.Topology.{
  VertexKind, source, sink, reduce, Vertex, Edge, dangling_edge, duplicate_edge, edge_into_source,
  Topology, ends, kind_of, check_vertices, check_ends_of, check_edges, new, vertex,
  retry_until_success,
}
use nfctl.Model.Topology.Valid.{names, IsValid, new_iff}
use nfctl.Model.Topology.Errors.{Twice, new-Explains}
use nfctl.Model.Topology.Diff.{
  diff, shape_changed, no_diff, diff_vertices, note_vertex, note_removed, diff_removed,
  diff_added_edges, diff_removed_edges,
}
use nfctl.Model.Topology.Diff.Laws.{SameShape, mem-diff_shape, shape_changed_iff}
use nfctl.Model.Topology.Diff.Changes.{Kept, mem-diff_changes, diff_self}

abbrev pub v : String → VertexKind → ℕ → Vertex
v name kind partitions = record {
  name = name;
  kind = kind;
  partitions = partitions;
  scale = record { min = none; max = none; disabled = false };
  image = none;
}

abbrev pub e : String → String → Edge
e from to = record { from = from; to = to; conditions = none; on_full = retry_until_success }

abbrev linear_vertices : List Vertex
linear_vertices = v "in" source 1 ∷ v "cat" VertexKind.map 1 ∷ v "out" sink 1 ∷ []

abbrev pub linear_edges : List Edge
linear_edges = e "in" "cat" ∷ e "cat" "out" ∷ []

abbrev pub linear : Topology
linear = record { vertices = linear_vertices; edges = linear_edges }

-- `cat` turns into a keyed reduce, and `extra` is put behind it.
abbrev pub changed : Topology
changed = record {
  vertices = v "in" source 1 ∷ v "cat" reduce 3 ∷ v "extra" VertexKind.map 1 ∷ v "out" sink 1 ∷ [];
  edges = e "in" "cat" ∷ e "cat" "extra" ∷ e "extra" "out" ∷ [];
}

runs_new : Unit {0}
unfolding new check_vertices check_edges check_ends_of kind_of find contains
runs_new = tt

new-linear : new linear_vertices linear_edges ≡ ok linear
unfolding runs_new
new-linear = refl

linear-IsValid : IsValid linear_vertices linear_edges
linear-IsValid = ((new_iff linear_vertices linear_edges linear).0 new-linear).0

new_iff_example : IsValid linear_vertices linear_edges × (linear ≡ linear)
new_iff_example = (new_iff linear_vertices linear_edges linear).0 new-linear

new-duplicate :
    new linear_vertices (e "in" "out" ∷ e "in" "out" ∷ []) ≡ err (duplicate_edge "in" "out")
unfolding runs_new
new-duplicate = refl

new-edge_into_source : new linear_vertices (e "cat" "in" ∷ []) ≡ err (edge_into_source "in")
unfolding runs_new
new-edge_into_source = refl

new-dangling : new linear_vertices (e "in" "nope" ∷ []) ≡ err (dangling_edge "in" "nope")
unfolding runs_new
new-dangling = refl

new-Explains_example : Twice ("in", "out") (map ends (e "in" "out" ∷ e "in" "out" ∷ []))
new-Explains_example =
    new-Explains linear_vertices (e "in" "out" ∷ e "in" "out" ∷ []) (duplicate_edge "in" "out")
      new-duplicate

runs_diff : Unit {0}
unfolding diff diff_vertices note_vertex diff_removed note_removed diff_added_edges
    diff_removed_edges vertex find any
runs_diff = tt

diff-changed :
    ((diff linear changed).added_vertices ≡ "extra" ∷ [])
    × ((diff linear changed).partitions_changed ≡ ("cat", 1, 3) ∷ [])
    × ((diff linear changed).removed_edges ≡ ("cat", "out") ∷ [])
unfolding runs_diff
diff-changed = (refl, refl, refl)

mem-diff_shape_example :
    Memᴰ "extra" (names changed.vertices) × (¬ Memᴰ "extra" (names linear.vertices))
unfolding runs_diff
mem-diff_shape_example = ((mem-diff_shape linear changed).0 "extra").0 (Memᴰ.head refl)

shape_changed_iff_example : SameShape linear linear
unfolding runs_diff shape_changed
shape_changed_iff_example = (shape_changed_iff linear linear).0 refl

mem-diff_changes_example :
    (old : Vertex) × (w : Vertex) × Kept linear changed "cat" old w
    × (old.partitions ≡ 1)
    × (w.partitions ≡ 3)
    × (◌≢◌ {A = ℕ} 1 3)
unfolding runs_diff
mem-diff_changes_example = ((mem-diff_changes linear changed "cat").1 1 3).0 (Memᴰ.head refl)

no_difference : diff linear linear ≡ no_diff
no_difference = diff_self linear linear-IsValid
