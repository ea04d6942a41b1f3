-- ===== src/Model/Topology/Diff/Fields.antt =====
-- What each list of a topology's diff holds, as one comprehension over the topologies
-- (crates/nfctl-core/src/model/topology.rs).
use nfctl.Common.{
  ℕ, List, [], ◌∷◌, ◌++◌, Option, none, some, PartialEq, ◌==◌, ◌≡◌, ◌∙◌, arith, string_eq, pair_eq,
  option_eq, nat_eq, if◌then◌else◌, Bool-cases, Option-cases, inl, inr,
}
use mathlib.Core.List.{append-nil, append_assoc}
use nfctl.Model.Ids.{VertexName}
use nfctl.Model.Topology.{VertexKind, vertex_kind_eq, Vertex, Edge, Topology, ends, vertex}
use nfctl.Model.Topology.Diff.{
  TopologyDiff, note_vertex, diff_vertices, note_removed, diff_removed, has_edge, diff_added_edges,
  diff_removed_edges, diff,
}

-- What a vertex of one topology adds to a list, by the vertex of that name in the other one.
abbrev pub name_if_missing : Vertex → Option Vertex → List VertexName
name_if_missing v none = v.name ∷ []
name_if_missing v (some _) = []

abbrev pub change_by {ℓ} :
    {B : Type ℓ} ⦃e : PartialEq B⦄
    → (Vertex → B)
    → Vertex
    → Option Vertex
    → List (VertexName × B × B)
change_by field v none = []
change_by field v (some old) =
    if field old == field v then [] else (v.name, field old, field v) ∷ []

abbrev pub kind_change : Vertex → Option Vertex → List (VertexName × VertexKind × VertexKind)
kind_change = change_by (λ v. v.kind)

abbrev pub partitions_change : Vertex → Option Vertex → List (VertexName × ℕ × ℕ)
partitions_change = change_by (λ v. v.partitions)

abbrev pub image_change : Vertex → Option Vertex → List VertexName
image_change v none = []
image_change v (some old) = if old.image == v.image then [] else v.name ∷ []

-- The additions of a list of vertices, against the topology `t`.
unfoldable pub collect {ℓ} :
    {A : Type ℓ} → Topology → (Vertex → Option Vertex → List A) → List Vertex → List A
collect t f [] = []
collect t f (v ∷ vs) = f v (vertex t v.name) ++ collect t f vs

-- The ends of the edges that `there` lacks.
unfoldable pub edges_missing : List Edge → List Edge → List (VertexName × VertexName)
edges_missing there [] = []
edges_missing there (e ∷ es) =
    (if has_edge there e then [] else ends e ∷ []) ++ edges_missing there es

note_vertex-eq :
    (v : Vertex) (o : Option Vertex) (d : TopologyDiff)
    → note_vertex v o d ≡ record d {
      added_vertices = d.added_vertices ++ name_if_missing v o;
      kind_changed = d.kind_changed ++ kind_change v o;
      partitions_changed = d.partitions_changed ++ partitions_change v o;
      image_changed = d.image_changed ++ image_change v o;
    }
unfolding note_vertex
note_vertex-eq v none d =
    ground (
      arith,
      append-nil d.kind_changed,
      append-nil d.partitions_changed,
      append-nil d.image_changed,
    )
note_vertex-eq v (some old) d = ground (
  arith,
  append-nil d.added_vertices,
  append-nil d.kind_changed,
  append-nil d.partitions_changed,
  append-nil d.image_changed,
)

diff_vertices-eq :
    (self : Topology) (vs : List Vertex) (d : TopologyDiff)
    → diff_vertices self vs d ≡ record d {
      added_vertices = d.added_vertices ++ collect self name_if_missing vs;
      kind_changed = d.kind_changed ++ collect self kind_change vs;
      partitions_changed = d.partitions_changed ++ collect self partitions_change vs;
      image_changed = d.image_changed ++ collect self image_change vs;
    }
unfolding diff_vertices collect
diff_vertices-eq self [] d = simp append-nil
diff_vertices-eq self (v ∷ vs) d =
    rw (note_vertex-eq v (vertex self v.name) d) (diff_vertices-eq self vs _ ∙ simp append_assoc)

diff_removed-eq :
    (new : Topology) (vs : List Vertex) (d : TopologyDiff)
    → diff_removed new vs d
      ≡ record d { removed_vertices = d.removed_vertices ++ collect new name_if_missing vs }
unfolding diff_removed collect note_removed
diff_removed-eq new [] d = simp append-nil
diff_removed-eq new (v ∷ vs) d = elim (Option-cases (vertex new v.name)) [
  | inl p ↦ rw p (diff_removed-eq new vs _ ∙ simp append_assoc)
  | inr (w, p) ↦ rw p (diff_removed-eq new vs d)
]

diff_added_edges-eq :
    (before es : List Edge) (d : TopologyDiff)
    → diff_added_edges before es d
      ≡ record d { added_edges = d.added_edges ++ edges_missing before es }
unfolding diff_added_edges edges_missing
diff_added_edges-eq before [] d = simp append-nil
diff_added_edges-eq before (e ∷ es) d = elim (Bool-cases (has_edge before e)) [
  | inl p ↦ rw p (diff_added_edges-eq before es d)
  | inr p ↦ rw p (diff_added_edges-eq before es _ ∙ simp append_assoc)
]

diff_removed_edges-eq :
    (after es : List Edge) (d : TopologyDiff)
    → diff_removed_edges after es d
      ≡ record d { removed_edges = d.removed_edges ++ edges_missing after es }
unfolding diff_removed_edges edges_missing
diff_removed_edges-eq after [] d = simp append-nil
diff_removed_edges-eq after (e ∷ es) d = elim (Bool-cases (has_edge after e)) [
  | inl p ↦ rw p (diff_removed_edges-eq after es d)
  | inr p ↦ rw p (diff_removed_edges-eq after es _ ∙ simp append_assoc)
]

-- The loops of `diff` compute one comprehension for each category, in the order of the lists.
pub diff-eq :
    (self new : Topology)
    → diff self new ≡ record {
      added_vertices = collect self name_if_missing new.vertices;
      removed_vertices = collect new name_if_missing self.vertices;
      added_edges = edges_missing self.edges new.edges;
      removed_edges = edges_missing new.edges self.edges;
      kind_changed = collect self kind_change new.vertices;
      partitions_changed = collect self partitions_change new.vertices;
      image_changed = collect self image_change new.vertices;
    }
unfolding diff
diff-eq self new =
    simp (diff_vertices-eq, diff_removed-eq, diff_added_edges-eq, diff_removed_edges-eq)
