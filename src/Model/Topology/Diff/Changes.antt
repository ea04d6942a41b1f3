-- ===== src/Model/Topology/Diff/Changes.antt =====
-- The changes of a vertex that both topologies have (crates/nfctl-core/src/model/topology.rs).
use nfctl.Common.{
  ℕ, List, [], ◌∷◌, Option, none, some, PartialEq, ◌==◌, ◌≡◌, ◌≢◌, ◌↔◌, refl, ◌∙◌, sym, ap, Memᴰ,
  eq_of_beq, beq_refl, ne_of_beq, string_eq, pair_eq, option_eq, nat_eq, map, Bool-cases, inl, inr,
}
use mathlib.Core.List.Memᴰ
use nfctl.Model.Ids.{VertexName}
use nfctl.Model.Topology.{VertexKind, vertex_kind_eq, Vertex, Edge, Topology, ends, vertex}
use nfctl.Model.Topology.Valid.{vertex_of_mem, IsValid}
use nfctl.Model.Topology.Diff.{no_diff, diff}
use nfctl.Model.Topology.Diff.Fields.{
  name_if_missing, change_by, kind_change, partitions_change, image_change, collect, edges_missing,
  diff-eq,
}
use nfctl.Model.Topology.Diff.Laws.{mem-collect, has_edge_iff}

-- A vertex `v` of the new topology with that name, and the vertex that the old one has by it.
abbrev pub Kept : Topology → Topology → VertexName → Vertex → Vertex → Type 0
Kept s t n old v = Memᴰ v t.vertices × (v.name ≡ n) × (vertex s n ≡ some old)

module _ {ℓ} {B : Type ℓ} ⦃e : PartialEq B⦄ (field : Vertex → B) where
  mem-change_by :
      (v : Vertex) (o : Option Vertex) (n : VertexName) (a b : B)
      → Memᴰ (n, a, b) (change_by field v o) ↔ (
          (old : Vertex) × (o ≡ some old)
          × (n ≡ v.name)
          × (a ≡ field old)
          × (b ≡ field v)
          × (a ≢ b))
  mem-change_by v none n a b = (λ m. elim m [ ], λ h. cc)
  mem-change_by v (some old) n a b = elim (Bool-cases (field old == field v)) [
    | inl p ↦ rw p (
      λ m. elim m [ ],
      λ (w, ow, en, ea, eb, ne). absurd (ne (cc (eq_of_beq (field old) (field v) p))),
    )
    | inr p ↦ rw p (
      λ m.
          let q = Memᴰ.eq_of_singleton m in
          (
            old,
            refl,
            ap (λ (r : VertexName × B × B). r.0) q,
            ap (λ (r : VertexName × B × B). r.1) q,
            ap (λ (r : VertexName × B × B). r.2) q,
            λ ab. ne_of_beq (field old) (field v) p (
                cc
                  (ap (λ (r : VertexName × B × B). r.1) q, ap (λ (r : VertexName × B × B). r.2) q)),
          ),
      λ (w, ow, en, ea, eb, ne). Memᴰ.head (cc),
    )
  ]

  mem-changed_by :
      (s t : Topology) (n : VertexName) (a b : B)
      → Memᴰ (n, a, b) (collect s (change_by field) t.vertices) ↔ (
          (old : Vertex) × (v : Vertex) × Kept s t n old v
          × (field old ≡ a)
          × (field v ≡ b)
          × (a ≢ b))
  mem-changed_by s t n a b = (
    λ m.
        let (v, vm, q) = (mem-collect s (change_by field) t.vertices (n, a, b)).0 m in
        let (old, o, en, ea, eb, ne) = (mem-change_by v (vertex s v.name) n a b).0 q in
        (old, v, (vm, sym en, rw en o), sym ea, sym eb, ne),
    λ (old, v, (vm, en, o), ea, eb, ne). (mem-collect s (change_by field) t.vertices (n, a, b)).1 (
      v,
      vm,
      (mem-change_by v (vertex s v.name) n a b).1 (old, rw en o, sym en, sym ea, sym eb, ne),
    ),
  )

  change_by_self : (v : Vertex) → change_by field v (some v) ≡ []
  change_by_self v = rw (beq_refl (field v))

-- `kind_changed` and `partitions_changed` report (name, from, to) exactly if both topologies have a
-- vertex of that name, with the two values, and the values differ.
pub mem-diff_changes :
    (s t : Topology) (n : VertexName)
    → ((a b : VertexKind)
        → Memᴰ (n, a, b) (diff s t).kind_changed ↔ (
            (old : Vertex) × (v : Vertex) × Kept s t n old v
            × (old.kind ≡ a)
            × (v.kind ≡ b)
            × (a ≢ b)))
      × ((a b : ℕ)
          → Memᴰ (n, a, b) (diff s t).partitions_changed ↔ (
              (old : Vertex) × (v : Vertex) × Kept s t n old v
              × (old.partitions ≡ a)
              × (v.partitions ≡ b)
              × (a ≢ b)))
mem-diff_changes s t n =
    rw (diff-eq s t) (mem-changed_by (λ v. v.kind) s t n, mem-changed_by (λ v. v.partitions) s t n)

mem-image_change :
    (v : Vertex) (o : Option Vertex) (n : VertexName)
    → Memᴰ n (image_change v o)
      ↔ ((old : Vertex) × (o ≡ some old) × (n ≡ v.name) × (old.image ≢ v.image))
mem-image_change v none n = (λ m. elim m [ ], λ h. cc)
mem-image_change v (some old) n = elim (Bool-cases (old.image == v.image)) [
  | inl p ↦
      rw p (λ m. elim m [ ], λ (w, ow, en, ne). absurd (ne (cc (eq_of_beq old.image v.image p))))
  | inr p ↦ rw p (
    λ m. (old, refl, Memᴰ.eq_of_singleton m, ne_of_beq old.image v.image p),
    λ (w, ow, en, ne). Memᴰ.head en,
  )
]

-- `image_changed` reports a name exactly if both topologies have a vertex of that name, with
-- different images.
pub mem-diff_image :
    (s t : Topology) (n : VertexName)
    → Memᴰ n (diff s t).image_changed
      ↔ ((old : Vertex) × (v : Vertex) × Kept s t n old v × (old.image ≢ v.image))
mem-diff_image s t n = rw (diff-eq s t) (
  λ m.
      let (v, vm, q) = (mem-collect s image_change t.vertices n).0 m in
      let (old, o, en, ne) = (mem-image_change v (vertex s v.name) n).0 q in
      (old, v, (vm, sym en, rw en o), ne),
  λ (old, v, (vm, en, o), ne).
      (mem-collect s image_change t.vertices n).1
        (v, vm, (mem-image_change v (vertex s v.name) n).1 (old, rw en o, sym en, ne)),
)

collect-nil {ℓ} :
    {A : Type ℓ} (t : Topology) (f : Vertex → Option Vertex → List A) (vs : List Vertex)
    → ((v : Vertex) → f v (some v) ≡ [])
    → ((v : Vertex) → Memᴰ v vs → vertex t v.name ≡ some v)
    → collect t f vs ≡ []
unfolding collect
collect-nil t f [] same found = refl
collect-nil t f (v ∷ vs) same found =
    rw (found v (Memᴰ.head refl), same v) (collect-nil t f vs same (λ w m. found w (Memᴰ.tail m)))

edges_missing-nil :
    (there es : List Edge)
    → ((e : Edge) → Memᴰ e es → Memᴰ (ends e) (map ends there))
    → edges_missing there es ≡ []
unfolding edges_missing
edges_missing-nil there [] sub = refl
edges_missing-nil there (e ∷ es) sub =
    rw ((has_edge_iff there e).1 (sub e (Memᴰ.head refl)))
      (edges_missing-nil there es (λ o m. sub o (Memᴰ.tail m)))

-- A topology that `Topology::new` accepted differs from itself in nothing.
pub diff_self : (t : Topology) → IsValid t.vertices t.edges → diff t t ≡ no_diff
diff_self t valid =
    let found : (v : Vertex) → Memᴰ v t.vertices → vertex t v.name ≡ some v =
      λ v m. vertex_of_mem t valid m in
    let edges : edges_missing t.edges t.edges ≡ [] =
      edges_missing-nil t.edges t.edges (λ e m. Memᴰ.map ends m) in
    diff-eq t t
    ∙ rw (
      collect-nil t name_if_missing t.vertices (λ v. refl) found,
      collect-nil t kind_change t.vertices (change_by_self (λ v. v.kind)) found,
      collect-nil t partitions_change t.vertices (change_by_self (λ v. v.partitions)) found,
      collect-nil t image_change t.vertices (λ v. rw (beq_refl v.image)) found,
      edges,
    )
