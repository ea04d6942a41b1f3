-- ===== src/Model/Topology/Diff/Laws.antt =====
-- What a diff of two topologies reports (crates/nfctl-core/src/model/topology.rs).
use nfctl.Common.{
  true, false, List, [], ◌∷◌, Option, none, some, PartialEq, ◌==◌, ◌≡◌, ◌↔◌, refl, sym, subst,
  arith, Memᴰ, eq_of_beq, beq_of_eq, find-some, find-none, any-of_mem, contains, contains_iff,
  mem_of_any, string_eq, pair_eq, option_eq, nat_eq, is_empty, map, Bool-cases, Option-cases, inl,
  inr,
}
use mathlib.Core.List.Memᴰ
use nfctl.Model.Ids.{VertexName}
use nfctl.Model.Topology.{vertex_kind_eq, Vertex, Edge, Topology, ends, vertex, find_vertex}
use nfctl.Model.Topology.Valid.{names}
use nfctl.Model.Topology.Diff.{has_edge, diff, shape_changed}
use nfctl.Model.Topology.Diff.Fields.{name_if_missing, collect, edges_missing, diff-eq}

-- Both topologies have the same vertex names and the same edges, as sets.
abbrev pub SameShape : Topology → Topology → Type 0
SameShape s t =
    ((n : VertexName) → Memᴰ n (names s.vertices) ↔ Memᴰ n (names t.vertices))
    × ((p : VertexName × VertexName) → Memᴰ p (map ends s.edges) ↔ Memᴰ p (map ends t.edges))

vertex-some :
    (t : Topology) (n : VertexName) {v : Vertex}
    → vertex t n ≡ some v
    → Memᴰ v t.vertices × (v.name ≡ n)
unfolding vertex
vertex-some t n {v} h =
    let (m, q) = find-some (λ (w : Vertex). w.name == n) t.vertices h in (m, eq_of_beq v.name n q)

vertex-none : (t : Topology) (n : VertexName) → (vertex t n ≡ none) ↔ (¬ Memᴰ n (names t.vertices))
unfolding vertex
vertex-none t n = (
  λ h m.
      let (v, vm, p) = Memᴰ.of_map (λ (w : Vertex). w.name) t.vertices m in
      cc (find-none (λ (w : Vertex). w.name == n) t.vertices h vm, (string_eq.eq_law v.name n).1 p),
  λ h. elim (Option-cases (find_vertex t.vertices n)) [
    | inl p ↦ p
    | inr (v, p) ↦
        let (m, q) = find-some (λ (w : Vertex). w.name == n) t.vertices p in
        absurd (
          h (
            subst (λ k. Memᴰ k (names t.vertices)) (eq_of_beq v.name n q)
              (Memᴰ.map (λ (w : Vertex). w.name) m)))
  ],
)

pub mem-collect {ℓ} :
    {A : Type ℓ} (t : Topology) (f : Vertex → Option Vertex → List A) (vs : List Vertex) (a : A)
    → Memᴰ a (collect t f vs) ↔ ((v : Vertex) × Memᴰ v vs × Memᴰ a (f v (vertex t v.name)))
unfolding collect
mem-collect t f [] a = (λ m. elim m [ ], λ h. elim h.1 [ ])
mem-collect t f (v ∷ vs) a = (
  λ m. elim (Memᴰ.append_cases (f v (vertex t v.name)) m) [
    | inl here ↦ (v, Memᴰ.head refl, here)
    | inr later ↦ let (w, wm, q) = (mem-collect t f vs a).0 later in (w, Memᴰ.tail wm, q)
  ],
  λ (w, wm, q). elim (Memᴰ.cases_cons wm) [
    | inl e ↦
        Memᴰ.append_left (collect t f vs)
          (subst (λ (u : Vertex). Memᴰ a (f u (vertex t u.name))) e q)
    | inr r ↦ Memᴰ.append_right (f v (vertex t v.name)) ((mem-collect t f vs a).1 (w, r, q))
  ],
)

mem-name_if_missing :
    (v : Vertex) (o : Option Vertex) (n : VertexName)
    → Memᴰ n (name_if_missing v o) ↔ ((n ≡ v.name) × (o ≡ none))
mem-name_if_missing v none n = (λ m. (Memᴰ.eq_of_singleton m, refl), λ h. Memᴰ.head h.0)
mem-name_if_missing v (some w) n = (λ m. elim m [ ], λ h. cc)

mem-missing :
    (t : Topology) (vs : List Vertex) (n : VertexName)
    → Memᴰ n (collect t name_if_missing vs) ↔ (Memᴰ n (names vs) × (¬ Memᴰ n (names t.vertices)))
mem-missing t vs n = (
  λ m.
      let (v, vm, q) = (mem-collect t name_if_missing vs n).0 m in
      let (e, p) = (mem-name_if_missing v (vertex t v.name) n).0 q in
      rw e (Memᴰ.map (λ (w : Vertex). w.name) vm, (vertex-none t v.name).0 p),
  λ (m, absent).
      let (v, vm, p) = Memᴰ.of_map (λ (w : Vertex). w.name) vs m in
      (mem-collect t name_if_missing vs n).1 (
        v,
        vm,
        (mem-name_if_missing v (vertex t v.name) n).1 (
          sym p,
          (vertex-none t v.name).1 (subst (λ k. ¬ Memᴰ k (names t.vertices)) (sym p) absent),
        ),
      ),
)

pub has_edge_iff :
    (es : List Edge) (e : Edge) → (has_edge es e ≡ true) ↔ Memᴰ (ends e) (map ends es)
has_edge_iff es e = (
  λ h.
      let (o, m, q) = mem_of_any (λ (o : Edge). ends o == ends e) es h in
      subst (λ p. Memᴰ p (map ends es)) (eq_of_beq (ends o) (ends e) q) (Memᴰ.map ends m),
  λ m.
      let (o, om, p) = Memᴰ.of_map ends es m in
      any-of_mem (λ (o : Edge). ends o == ends e) es om (beq_of_eq (ends o) (ends e) p),
)

mem-edges_missing :
    (there es : List Edge) (p : VertexName × VertexName)
    → Memᴰ p (edges_missing there es) ↔ (Memᴰ p (map ends es) × (¬ Memᴰ p (map ends there)))
unfolding edges_missing
mem-edges_missing there [] p = (λ m. elim m [ ], λ h. elim h.0 [ ])
mem-edges_missing there (e ∷ es) p = elim (Bool-cases (has_edge there e)) [
  | inl old ↦ rw old (
    λ m. let (q, a) = (mem-edges_missing there es p).0 m in (Memᴰ.tail q, a),
    λ (m, a). elim (Memᴰ.cases_cons m) [
      | inl q ↦
          absurd (a (subst (λ r. Memᴰ r (map ends there)) (sym q) ((has_edge_iff there e).0 old)))
      | inr r ↦ (mem-edges_missing there es p).1 (r, a)
    ],
  )
  | inr fresh ↦ rw fresh (
    λ m. elim (Memᴰ.cases_cons m) [
      | inl q ↦ (
        Memᴰ.head q,
        λ n. cc (fresh, (has_edge_iff there e).1 (subst (λ r. Memᴰ r (map ends there)) q n)),
      )
      | inr r ↦ let (q, a) = (mem-edges_missing there es p).0 r in (Memᴰ.tail q, a)
    ],
    λ (m, a). elim (Memᴰ.cases_cons m) [
      | inl q ↦ Memᴰ.head q
      | inr r ↦ Memᴰ.tail ((mem-edges_missing there es p).1 (r, a))
    ],
  )
]

-- The four lists of the shape: a name or an edge is reported as added exactly if the new topology
-- has it and the old one does not, and as removed exactly if the old one has it and the new one
-- does not.
pub mem-diff_shape :
    (s t : Topology)
    → ((n : VertexName)
        → Memᴰ n (diff s t).added_vertices
          ↔ (Memᴰ n (names t.vertices) × (¬ Memᴰ n (names s.vertices))))
      × ((n : VertexName)
          → Memᴰ n (diff s t).removed_vertices
            ↔ (Memᴰ n (names s.vertices) × (¬ Memᴰ n (names t.vertices))))
      × ((p : VertexName × VertexName)
          → Memᴰ p (diff s t).added_edges
            ↔ (Memᴰ p (map ends t.edges) × (¬ Memᴰ p (map ends s.edges))))
      × ((p : VertexName × VertexName)
          → Memᴰ p (diff s t).removed_edges
            ↔ (Memᴰ p (map ends s.edges) × (¬ Memᴰ p (map ends t.edges))))
mem-diff_shape s t = rw (diff-eq s t) (
  mem-missing s t.vertices,
  mem-missing t s.vertices,
  mem-edges_missing s.edges t.edges,
  mem-edges_missing t.edges s.edges,
)

nil_of_empty {ℓ} : {A : Type ℓ} (xs : List A) → ((a : A) → ¬ Memᴰ a xs) → is_empty xs ≡ true
nil_of_empty [] h = refl
nil_of_empty (x ∷ xs) h = absurd (h x (Memᴰ.head refl))

empty-not_mem {ℓ} : {A : Type ℓ} (xs : List A) → is_empty xs ≡ true → (a : A) → ¬ Memᴰ a xs
empty-not_mem [] h a m = elim m [ ]
empty-not_mem (x ∷ xs) h a m = cc

-- A member of `xs` is one of `ys`, if membership in `ys` is decided and no member is missing.
stays {ℓ} :
    {A : Type ℓ} ⦃e : PartialEq A⦄ {xs ys : List A} (gone : List A)
    → ((a : A) → (Memᴰ a xs × (¬ Memᴰ a ys)) → Memᴰ a gone)
    → is_empty gone ≡ true
    → (a : A) → Memᴰ a xs
    → Memᴰ a ys
stays {ys} gone miss none_gone a m = elim (Bool-cases (contains ys a)) [
  | inl h ↦ (contains_iff ys a).0 h
  | inr h ↦
      absurd (empty-not_mem gone none_gone a (miss a (m, λ n. cc (h, (contains_iff ys a).1 n))))
]

-- `shape_changed` is false exactly if the two topologies have the same vertex names and the same
-- edges.
pub shape_changed_iff : (s t : Topology) → (shape_changed (diff s t) ≡ false) ↔ SameShape s t
unfolding shape_changed
shape_changed_iff s t =
    let (added, removed, new_edges, old_edges) = mem-diff_shape s t in
    (
      λ h. (
        λ n. (
          stays (diff s t).removed_vertices (λ a. (removed a).1) (ground (arith, h)) n,
          stays (diff s t).added_vertices (λ a. (added a).1) (ground (arith, h)) n,
        ),
        λ p. (
          stays (diff s t).removed_edges (λ a. (old_edges a).1) (ground (arith, h)) p,
          stays (diff s t).added_edges (λ a. (new_edges a).1) (ground (arith, h)) p,
        ),
      ),
      λ (vs, es). rw (
        nil_of_empty (diff s t).added_vertices
            (λ n m. let (i, o) = (added n).0 m in o ((vs n).1 i)),
        nil_of_empty (diff s t).removed_vertices
            (λ n m. let (i, o) = (removed n).0 m in o ((vs n).0 i)),
        nil_of_empty (diff s t).added_edges
            (λ n m. let (i, o) = (new_edges n).0 m in o ((es n).1 i)),
        nil_of_empty (diff s t).removed_edges
            (λ n m. let (i, o) = (old_edges n).0 m in o ((es n).0 i)),
      ),
    )
