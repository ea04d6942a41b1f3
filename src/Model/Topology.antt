-- ===== src/Model/Topology.antt =====
-- crates/nfctl-core/src/model/topology.rs: vertices, edges and the validating constructor.
pub mod Valid
pub mod Errors
pub mod Diff
pub mod Ranks
use nfctl.Common.{
  ℕ, suc, String, Bool, true, false, ◌&&◌, ◌||◌, not, List, [], ◌∷◌, Option, none, some, PartialEq,
  ◌==◌, ◌≡◌, ◌↔◌, string_eq, pair_eq, if◌then◌else◌, is_empty, length, find, keep, contains, Result,
  ok, err, ◌>>=◌, ◌>>◌, arith,
}
use mathlib.Core.Option
use nfctl.Model.Ids.{VertexName}

pub data VertexKind : Type 0 where
  source sink map reduce : VertexKind

abbrev pub vertex_kind_same : VertexKind → VertexKind → Bool
vertex_kind_same source source = true
vertex_kind_same sink sink = true
vertex_kind_same map map = true
vertex_kind_same reduce reduce = true
vertex_kind_same _ _ = false

pub vertex_kind_same_law : (a b : VertexKind) → (vertex_kind_same a b ≡ true) ↔ (a ≡ b)
vertex_kind_same_law a b = ground arith

instance abbrev pub vertex_kind_eq : PartialEq VertexKind
vertex_kind_eq = record { same = vertex_kind_same; eq_law = vertex_kind_same_law }

-- `u32` counts, which the code only copies and compares.
pub record ScaleSpec : Type 0 where
  pub min : Option ℕ
  pub max : Option ℕ
  pub disabled : Bool

pub record Vertex : Type 0 where
  pub name : VertexName
  pub kind : VertexKind
  pub partitions : ℕ
  pub scale : ScaleSpec
  pub image : Option String

pub data TagOperator : Type 0 where
  or and not_ : TagOperator

pub record TagCondition : Type 0 where
  pub operator : TagOperator
  pub values : List String

pub data OnFull : Type 0 where
  retry_until_success discard_latest : OnFull

pub record Edge : Type 0 where
  pub from : VertexName
  pub to : VertexName
  pub conditions : Option TagCondition
  pub on_full : OnFull

pub data TopologyError : Type 0 where
  empty : TopologyError
  duplicate_vertex : VertexName → TopologyError
  dangling_edge : (from to : VertexName) → TopologyError
  duplicate_edge : (from to : VertexName) → TopologyError
  edge_into_source : VertexName → TopologyError
  edge_out_of_sink : VertexName → TopologyError

pub record Topology : Type 0 where
  pub vertices : List Vertex
  pub edges : List Edge

-- `(e.from, e.to)`, by which edges are told apart.
abbrev pub ends : Edge → VertexName × VertexName
ends e = (e.from, e.to)

-- `vertices.iter().find(|v| &v.name == n)`
abbrev pub find_vertex : List Vertex → VertexName → Option Vertex
find_vertex vertices n = find (λ v. v.name == n) vertices

unfoldable pub kind_of : List Vertex → VertexName → Option VertexKind
kind_of vertices n = Option.map (λ v. v.kind) (find_vertex vertices n)

-- The loop over the vertices; `seen` is the set of names inserted so far.
unfoldable pub check_vertices : List VertexName → List Vertex → Result TopologyError (Unit {0})
check_vertices seen [] = ok tt
check_vertices seen (v ∷ vs) =
    let rest = check_vertices (v.name ∷ seen) vs in
    if contains seen v.name then err (duplicate_vertex v.name) else rest

-- The body of the loop over the edges, once both ends are looked up.
unfoldable pub check_ends_of :
    (seen : List (VertexName × VertexName)) (e : Edge) (from_kind to_kind : Option VertexKind)
    → Result TopologyError (Unit {0})
check_ends_of seen e (some from_kind) (some to_kind) =
    if contains seen (ends e)
    then err (duplicate_edge e.from e.to)
    else if to_kind == source
    then err (edge_into_source e.to)
    else if from_kind == sink
    then err (edge_out_of_sink e.from)
    else ok tt
check_ends_of seen e _ _ = err (dangling_edge e.from e.to)

unfoldable pub check_edges :
    List Vertex → List (VertexName × VertexName) → List Edge → Result TopologyError (Unit {0})
check_edges vertices seen [] = ok tt
check_edges vertices seen (e ∷ es) =
    let rest = check_edges vertices (ends e ∷ seen) es in
    check_ends_of seen e (kind_of vertices e.from) (kind_of vertices e.to) >>= λ _. rest

-- `Topology::new`
unfoldable pub new : List Vertex → List Edge → Result TopologyError Topology
new vertices edges = if is_empty vertices then err empty else do
  check_vertices [] vertices
  check_edges vertices [] edges
  ok (record { vertices = vertices; edges = edges })

-- `Topology::vertex`
unfoldable pub vertex : Topology → VertexName → Option Vertex
vertex t n = find_vertex t.vertices n

-- `Topology::count`
unfoldable pub count : Topology → VertexKind → ℕ
count t kind = length (keep (λ v. v.kind == kind) t.vertices)
