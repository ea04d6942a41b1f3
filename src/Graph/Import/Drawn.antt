-- ===== src/Graph/Import/Drawn.antt =====
-- The topology that is built from what `to_mermaid` (crates/nfctl-graph/src/mermaid.rs) draws of one.
use nfctl.Common.{
  String, true, false, inl, inr, List, [], ◌∷◌, ◌++◌, none, some, ◌==◌, string_eq, ◌≡◌, ◌≢◌, refl,
  sym, ap, ◌∙◌, subst, arith, All, ok, Memᴰ, Bool-cases, any, keep, map, eq_of_beq, beq_of_eq,
  mem_of_any, is_empty,
}
use mathlib.Core.List.Memᴰ
use mathlib.Core.List.{append-nil, append_assoc}
use nfctl.Model.Ids.{VertexName}
use nfctl.Model.Topology.{VertexKind, source, sink, Vertex, Edge, Topology, ends}
use nfctl.Model.Topology.Valid.{names, Ends, Fresh, IsValid, AllResolve, new_iff}
use nfctl.Graph.Mermaid.{node_id}
use nfctl.Graph.Import.{Node, Nodes, Link, Parsed}
use nfctl.Graph.Import.Build.{
  Named, name_at, plain, vertices_of, solid, joins, edges_of, members, build_group, build_groups,
  build,
}
use nfctl.Graph.Import.Names.{IsName, node_id_injective, vertex_name-same}

-- What a flowchart can hold of a vertex, and of an edge.
abbrev pub IsPlain : Vertex → Type 0
IsPlain v = IsName v.name × (v ≡ plain v.name v.kind)

abbrev pub IsSolid : Edge → Type 0
IsSolid e = e ≡ solid e.from e.to none

abbrev pub node_of : Vertex → String × Node
node_of v = (node_id v.name, record { label = v.name; kind = some v.kind; group = none })

abbrev pub link_of : Edge → Link
link_of e = record { from = node_id e.from; to = node_id e.to; label = none; dotted = false }

-- What is read of a topology that was written.
abbrev pub drawn : Topology → Parsed
drawn t = record { nodes = map node_of t.vertices; links = map link_of t.edges; groups = [] }

abbrev named : List Vertex → Named
named vs = map (λ v. (node_id v.name, v.name)) vs

members-drawn : (vs : List Vertex) → members (map node_of vs) none ≡ map node_of vs
unfolding keep
members-drawn [] = refl
members-drawn (v ∷ vs) = ap (λ (ns : Nodes). node_of v ∷ ns) (members-drawn vs)

vertices_of-drawn :
    (pipeline : String) (vs : List Vertex)
    → All IsPlain vs
    → vertices_of pipeline (map node_of vs) ≡ ok (named vs, vs)
unfolding vertices_of
vertices_of-drawn pipeline [] h = refl
vertices_of-drawn pipeline (v ∷ vs) ((n, p), h) = rw (vertex_name-same v.name n) (
    rw n.accepted (
      rw (vertices_of-drawn pipeline vs h)
        (ap (λ (w : Vertex). ok (named (v ∷ vs), w ∷ vs)) (sym p))))

name_at-drawn :
    (vs : List Vertex) (n : VertexName)
    → All IsPlain vs
    → IsName n
    → Memᴰ n (names vs)
    → name_at (named vs) (node_id n) ≡ some n
unfolding name_at
name_at-drawn [] n h hn m = elim m [ ]
name_at-drawn (v ∷ vs) n ((hv, p), h) hn m = elim (Bool-cases (node_id v.name == node_id n)) [
  | inl t ↦
      rw t (ap some (node_id_injective v.name n hv hn (eq_of_beq (node_id v.name) (node_id n) t)))
  | inr f ↦ rw f (elim (Memᴰ.cases_cons m) [
    | inl e ↦ absurd (cc (f, beq_of_eq (node_id v.name) (node_id n) (ap node_id (sym e))))
    | inr r ↦ name_at-drawn vs n h hn r
  ])
]

pub name-of_mem :
    (vs : List Vertex) (n : VertexName) → All IsPlain vs → Memᴰ n (names vs) → IsName n
name-of_mem [] n h m = elim m [ ]
name-of_mem (v ∷ vs) n ((hv, p), h) m = elim (Memᴰ.cases_cons m) [
  | inl e ↦ subst IsName (sym e) hv
  | inr r ↦ name-of_mem vs n h r
]

same_ends : (a e : Edge) → joins e.from e.to a ≡ true → ends a ≡ ends e
same_ends a e j =
    let (f, t) : (a.from == e.from ≡ true) × (a.to == e.to ≡ true) = ground (arith, j) in
    cc (eq_of_beq a.from e.from f, eq_of_beq a.to e.to t)

pub mem-end :
    (vs : List Vertex) (n : VertexName) (banned : VertexKind) → Ends vs n banned → Memᴰ n (names vs)
mem-end vs n banned (v, m, e, k) =
    subst (λ x. Memᴰ x (names vs)) e (Memᴰ.map (λ (w : Vertex). w.name) m)

joins-none :
    (e : Edge) (acc : List Edge) (seen : List (VertexName × VertexName))
    → ((a : Edge) → Memᴰ a acc → Memᴰ (ends a) seen)
    → ¬ Memᴰ (ends e) seen
    → any (joins e.from e.to) acc ≡ false
joins-none e acc seen old fresh = elim (Bool-cases (any (joins e.from e.to) acc)) [
  | inr f ↦ f
  | inl t ↦
      let (a, m, j) = mem_of_any (joins e.from e.to) acc t in
      absurd (fresh (subst (λ p. Memᴰ p seen) (same_ends a e j) (old a m)))
]

edges_of-drawn :
    (vs : List Vertex) (es acc : List Edge) (seen : List (VertexName × VertexName))
    → All IsPlain vs
    → All IsSolid es
    → AllResolve vs es
    → Fresh seen (map ends es)
    → ((a : Edge) → Memᴰ a acc → Memᴰ (ends a) seen)
    → edges_of (named vs) (map link_of es) acc ≡ acc ++ es
unfolding edges_of
edges_of-drawn vs [] acc seen h s r f old = sym (append-nil acc)
edges_of-drawn vs (e ∷ es) acc seen h (plain, s) ((from, to), r) (fresh, f) old =
    let mf = mem-end vs e.from sink from in
    let mt = mem-end vs e.to source to in
    rw (name_at-drawn vs e.from h (name-of_mem vs e.from h mf) mf) (
      rw (name_at-drawn vs e.to h (name-of_mem vs e.to h mt) mt) (
        rw (joins-none e acc seen old fresh) (
          edges_of-drawn vs es (acc ++ solid e.from e.to none ∷ []) (ends e ∷ seen) h s r f (λ a m.
            elim (Memᴰ.append_cases acc m) [
              | inl l ↦ Memᴰ.tail (old a l)
              | inr k ↦ Memᴰ.head (ap ends (Memᴰ.eq_of_singleton k))
            ])
          ∙ (append_assoc acc (solid e.from e.to none ∷ []) es
              ∙ ap (λ (x : Edge). acc ++ x ∷ es) (sym plain)))))

not_empty_lem : (vs : List Vertex) → vs ≢ [] → is_empty vs ≡ false
not_empty_lem [] ne = absurd (ne refl)
not_empty_lem (v ∷ vs) ne = refl

-- A topology of plain vertices and edges is built again from what is drawn of it.
pub build-drawn :
    (t : Topology)
    → IsValid t.vertices t.edges
    → All IsPlain t.vertices
    → All IsSolid t.edges
    → build (drawn t) ≡ ok (("pipeline", t) ∷ [])
unfolding build build_groups build_group
build-drawn t valid plains solids = rw (members-drawn t.vertices) (
    rw (vertices_of-drawn "pipeline" t.vertices plains) (
      rw
        (edges_of-drawn t.vertices t.edges [] [] plains solids valid.resolve valid.edges_unique
          (λ a m. elim m [ ]))
        (rw (not_empty_lem t.vertices valid.not_empty)
          (rw ((new_iff t.vertices t.edges t).1 (valid, refl)) refl))))
