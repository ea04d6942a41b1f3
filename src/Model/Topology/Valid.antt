-- ===== src/Model/Topology/Valid.antt =====
-- What `Topology::new` (crates/nfctl-core/src/model/topology.rs) promises of the topology it builds.
use nfctl.Common.{
  false, List, [], ◌∷◌, Option, none, some, ◌==◌, ◌≡◌, ◌≢◌, ◌↔◌, inl, inr, refl, sym, subst,
  string_eq, pair_eq, find, find-some, contains, contains_iff, ok, ok_of_bind, arith, Memᴰ,
  Bool-cases, Option-cases, beq_refl, eq_of_beq, map,
}
use mathlib.Core.List.Memᴰ
use nfctl.Model.Ids.{VertexName}
use nfctl.Model.Topology.{
  VertexKind, source, sink, vertex_kind_eq, Vertex, Edge, Topology, ends, find_vertex, vertex,
  kind_of, check_vertices, check_ends_of, check_edges, new,
}

-- No entry stands twice in the list, or in `seen`.
abbrev pub Fresh {ℓ} : {A : Type ℓ} → List A → List A → Type ℓ
Fresh seen [] = Unit
Fresh seen (x ∷ xs) = (¬ Memᴰ x seen) × Fresh (x ∷ seen) xs

abbrev pub names : List Vertex → List VertexName
names vs = map (λ v. v.name) vs

-- A vertex of the list with that name, whose kind is not `banned`.
abbrev pub Ends : List Vertex → VertexName → VertexKind → Type 0
Ends vertices n banned = (v : Vertex) × Memᴰ v vertices × (v.name ≡ n) × (v.kind ≢ banned)

-- An edge resolves, leaves no sink and enters no source.
abbrev pub Resolves : List Vertex → Edge → Type 0
Resolves vertices e = Ends vertices e.from sink × Ends vertices e.to source

abbrev pub AllResolve : List Vertex → List Edge → Type 0
AllResolve vertices [] = Unit
AllResolve vertices (e ∷ es) = Resolves vertices e × AllResolve vertices es

pub record IsValid (vertices : List Vertex) (edges : List Edge) : Type 0 where
  pub not_empty : vertices ≢ []
  pub names_unique : Fresh [] (names vertices)
  pub edges_unique : Fresh [] (map ends edges)
  pub resolve : AllResolve vertices edges

pub Fresh-not_mem {ℓ} :
    {A : Type ℓ} {a : A} (seen xs : List A) → Fresh seen xs → Memᴰ a xs → Memᴰ a seen → ⊥
Fresh-not_mem seen [] f m s = elim m [ ]
Fresh-not_mem seen (x ∷ xs) f (Memᴰ.head e) s = f.0 (subst (λ y. Memᴰ y seen) e s)
Fresh-not_mem seen (x ∷ xs) f (Memᴰ.tail m) s = Fresh-not_mem (x ∷ seen) xs f.1 m (Memᴰ.tail s)

check_vertices_iff :
    (seen : List VertexName) (vs : List Vertex)
    → (check_vertices seen vs ≡ ok tt) ↔ Fresh seen (names vs)
unfolding check_vertices
check_vertices_iff seen [] = (λ _. tt, λ _. refl)
check_vertices_iff seen (v ∷ vs) = elim (Bool-cases (contains seen v.name)) [
  | inl old ↦ rw old (λ h. cc, λ f. absurd (f.0 ((contains_iff seen v.name).0 old)))
  | inr new ↦ rw new (
    λ h. (
      λ m. cc (new, (contains_iff seen v.name).1 m),
      (check_vertices_iff (v.name ∷ seen) vs).0 h,
    ),
    λ f. (check_vertices_iff (v.name ∷ seen) vs).1 f.1,
  )
]

pub kind_of-some :
    (vs : List Vertex) (n : VertexName) {k : VertexKind}
    → kind_of vs n ≡ some k
    → (v : Vertex) × Memᴰ v vs × (v.name ≡ n) × (v.kind ≡ k)
unfolding kind_of
kind_of-some vs n h = elim (Option-cases (find_vertex vs n)) [
  | inl p ↦ absurd (ground (arith, h, p))
  | inr (v, p) ↦
      let (m, q) = find-some (λ (w : Vertex). w.name == n) vs p in
      (v, m, eq_of_beq v.name n q, ground (arith, h, p))
]

find_vertex_unique :
    (seen : List VertexName) (vs : List Vertex) {v : Vertex}
    → Fresh seen (names vs)
    → Memᴰ v vs
    → find_vertex vs v.name ≡ some v
unfolding find
find_vertex_unique seen [] f m = elim m [ ]
find_vertex_unique seen (x ∷ xs) {v} f (Memᴰ.head e) = rw (e, beq_refl x.name)
find_vertex_unique seen (x ∷ xs) {v} f (Memᴰ.tail m) = elim (Bool-cases (x.name == v.name)) [
  | inl p ↦ absurd (
      Fresh-not_mem (x.name ∷ seen) (names xs) f.1 (Memᴰ.map (λ (w : Vertex). w.name) m)
        (Memᴰ.head (sym (eq_of_beq x.name v.name p))))
  | inr p ↦ rw p (find_vertex_unique (x.name ∷ seen) xs f.1 m)
]

-- In a topology that `new` accepted, looking up the name of a vertex finds that vertex.
pub vertex_of_mem :
    (t : Topology) {v : Vertex}
    → IsValid t.vertices t.edges
    → Memᴰ v t.vertices
    → vertex t v.name ≡ some v
unfolding vertex
vertex_of_mem t valid m = find_vertex_unique [] t.vertices valid.names_unique m

kind_of_unique :
    (vs : List Vertex) {v : Vertex}
    → Fresh [] (names vs)
    → Memᴰ v vs
    → kind_of vs v.name ≡ some v.kind
unfolding kind_of
kind_of_unique vs f m = rw (find_vertex_unique [] vs f m)

check_ends_of-ok :
    (seen : List (VertexName × VertexName)) (e : Edge) (from_kind to_kind : Option VertexKind)
    → check_ends_of seen e from_kind to_kind ≡ ok tt
    → (contains seen (ends e) ≡ false)
      × (f : VertexKind) × (from_kind ≡ some f)
      × (f ≢ sink)
      × (t : VertexKind) × (to_kind ≡ some t)
      × (t ≢ source)
unfolding check_ends_of
check_ends_of-ok seen e none to_kind h = cc
check_ends_of-ok seen e (some f) none h = cc
check_ends_of-ok seen e (some f) (some t) h =
    (ground (arith, h), f, refl, ground (arith, h), t, refl, ground (arith, h))

check_ends_of-pass :
    (seen : List (VertexName × VertexName)) (e : Edge) (f t : VertexKind)
    → contains seen (ends e) ≡ false
    → f ≢ sink
    → t ≢ source
    → check_ends_of seen e (some f) (some t) ≡ ok tt
unfolding check_ends_of
check_ends_of-pass seen e f t new hf ht = ground arith

check_edges_sound :
    (vs : List Vertex) (seen : List (VertexName × VertexName)) (es : List Edge)
    → check_edges vs seen es ≡ ok tt
    → Fresh seen (map ends es) × AllResolve vs es
unfolding check_edges
check_edges_sound vs seen [] h = (tt, tt)
check_edges_sound vs seen (e ∷ es) h =
    let (_, first, rest) =
      ok_of_bind (check_ends_of seen e (kind_of vs e.from) (kind_of vs e.to)) _ h in
    let (new, f, hf, nf, t, ht, nt) =
      check_ends_of-ok seen e (kind_of vs e.from) (kind_of vs e.to) first in
    let (fv, fm, fn, fk) = kind_of-some vs e.from hf in
    let (tv, tm, tn, tk) = kind_of-some vs e.to ht in
    let (fresh, all) = check_edges_sound vs (ends e ∷ seen) es rest in
    (
      (λ m. cc (new, (contains_iff seen (ends e)).1 m), fresh),
      (((fv, fm, fn, λ q. nf (cc)), (tv, tm, tn, λ q. nt (cc))), all),
    )

kind_of-Ends :
    (vs : List Vertex) (n : VertexName) (banned : VertexKind)
    → Fresh [] (names vs)
    → Ends vs n banned
    → (k : VertexKind) × (kind_of vs n ≡ some k) × (k ≢ banned)
kind_of-Ends vs n banned f (v, m, p, h) = (v.kind, rw (← p) (kind_of_unique vs f m), h)

check_edges_complete :
    (vs : List Vertex) (seen : List (VertexName × VertexName)) (es : List Edge)
    → Fresh [] (names vs)
    → Fresh seen (map ends es)
    → AllResolve vs es
    → check_edges vs seen es ≡ ok tt
unfolding check_edges
check_edges_complete vs seen [] f g r = refl
check_edges_complete vs seen (e ∷ es) f g ((rf, rt), rs) =
    let (fk, hf, nf) = kind_of-Ends vs e.from sink f rf in
    let (tk, ht, nt) = kind_of-Ends vs e.to source f rt in
    let new : contains seen (ends e) ≡ false = elim (Bool-cases (contains seen (ends e))) [
      | inl old ↦ absurd (g.0 ((contains_iff seen (ends e)).0 old))
      | inr new ↦ new
    ] in
    rw (hf, ht, check_ends_of-pass seen e fk tk new nf nt)
      (check_edges_complete vs (ends e ∷ seen) es f g.1 rs)

-- `Topology::new` succeeds exactly on the well-formed pairs of lists (some vertex, unique names, no
-- edge twice, every edge between vertices of the list, none out of a sink or into a source), and
-- the topology it returns holds the two lists as they were given.
pub new_iff :
    (vs : List Vertex) (es : List Edge) (t : Topology)
    → (new vs es ≡ ok t) ↔ (IsValid vs es × (t ≡ record { vertices = vs; edges = es }))
unfolding new
new_iff [] es t = (λ h. cc, λ h. absurd (h.0.not_empty refl))
new_iff (v ∷ vs) es t = (
  λ h.
      let (_, unique, rest) = ok_of_bind (check_vertices [] (v ∷ vs)) _ h in
      let (_, resolved, made) = ok_of_bind (check_edges (v ∷ vs) [] es) _ rest in
      let (fresh, all) = check_edges_sound (v ∷ vs) [] es resolved in
      (
        record {
          not_empty = λ p. cc;
          names_unique = (check_vertices_iff [] (v ∷ vs)).0 unique;
          edges_unique = fresh;
          resolve = all;
        },
        ground (arith, made),
      ),
  λ h. rw (
    (check_vertices_iff [] (v ∷ vs)).1 h.0.names_unique,
    check_edges_complete (v ∷ vs) [] es h.0.names_unique h.0.edges_unique h.0.resolve,
    h.1,
  ),
)
