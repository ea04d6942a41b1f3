-- ===== src/Model/Topology/Errors.antt =====
-- The causes of the errors of `Topology::new` (crates/nfctl-core/src/model/topology.rs).
use nfctl.Common.{
  err_of_bind, true, List, [], ◌∷◌, ◌++◌, Option, none, some, ◌==◌, ◌≡◌, ◌≢◌, ◌⊎◌, inl, inr, refl,
  subst, string_eq, pair_eq, find-none, contains, contains_iff, err, arith, Memᴰ, Bool-cases,
  Option-cases, map,
}
use mathlib.Core.List.Memᴰ
use mathlib.Core.List.{append_assoc, map-append}
use nfctl.Model.Ids.{VertexName}
use nfctl.Model.Topology.{
  VertexKind, source, sink, vertex_kind_eq, Vertex, Edge, TopologyError, empty, duplicate_vertex,
  dangling_edge, duplicate_edge, edge_into_source, edge_out_of_sink, ends, find_vertex, kind_of,
  check_vertices, check_ends_of, check_edges, new,
}
use nfctl.Model.Topology.Valid.{names, kind_of-some}

-- The list holds `x`, and holds it again further on.
abbrev pub Twice {ℓ} : {A : Type ℓ} → A → List A → Type ℓ
Twice {A} x xs = (before : List A) × (after : List A) × (xs ≡ before ++ x ∷ after) × Memᴰ x before

-- No vertex has the name.
abbrev pub Missing : List Vertex → VertexName → Type 0
Missing vs n = (v : Vertex) → Memᴰ v vs → v.name ≢ n

-- Some vertex of that kind has the name.
abbrev pub HasKind : List Vertex → VertexName → VertexKind → Type 0
HasKind vs n k = (v : Vertex) × Memᴰ v vs × (v.name ≡ n) × (v.kind ≡ k)

abbrev pub Explains : List Vertex → List Edge → TopologyError → Type 0
Explains vs es empty = vs ≡ []
Explains vs es (duplicate_vertex n) = Twice n (names vs)
Explains vs es (dangling_edge from to) =
    (e : Edge) × Memᴰ e es × (ends e ≡ (from, to)) × (Missing vs from ⊎ Missing vs to)
Explains vs es (duplicate_edge from to) = Twice (from, to) (map ends es)
Explains vs es (edge_into_source n) = (e : Edge) × Memᴰ e es × (e.to ≡ n) × HasKind vs n source
Explains vs es (edge_out_of_sink n) = (e : Edge) × Memᴰ e es × (e.from ≡ n) × HasKind vs n sink

kind_of-none : (vs : List Vertex) (n : VertexName) → kind_of vs n ≡ none → Missing vs n
unfolding kind_of
kind_of-none vs n h v m p = elim (Option-cases (find_vertex vs n)) [
  | inl q ↦ cc (find-none (λ (w : Vertex). w.name == n) vs q m, (string_eq.eq_law v.name n).1 p)
  | inr (w, q) ↦ cc (h, q)
]

-- Dropping the part that was already seen: `seen` holds the names of `before`.
check_vertices-Explains :
    (before seen : List VertexName) (vs : List Vertex) (x : TopologyError)
    → ((n : VertexName) → Memᴰ n seen → Memᴰ n before)
    → check_vertices seen vs ≡ err x
    → (n : VertexName) × (x ≡ duplicate_vertex n) × Twice n (before ++ names vs)
unfolding check_vertices
check_vertices-Explains before seen [] x sub h = cc
check_vertices-Explains before seen (v ∷ vs) x sub h = elim (Bool-cases (contains seen v.name)) [
  | inl old ↦ (
    v.name,
    ground (arith, h, old),
    (before, names vs, refl, sub v.name ((contains_iff seen v.name).0 old)),
  )
  | inr new ↦
      let (n, p, t) =
        check_vertices-Explains (before ++ v.name ∷ []) (v.name ∷ seen) vs x
          (λ n m. elim (Memᴰ.cases_cons m) [
            | inl e ↦ Memᴰ.append_right before (Memᴰ.head e)
            | inr r ↦ Memᴰ.append_left (v.name ∷ []) (sub n r)
          ])
          (rw new at h) in
      (n, p, rw append_assoc at t)
]

-- The four ways in which the body of the loop over the edges fails.
check_ends_of-cases :
    (seen : List (VertexName × VertexName)) (e : Edge) (f t : Option VertexKind) {x : TopologyError}
    → check_ends_of seen e f t ≡ err x
    → (x ≡ dangling_edge e.from e.to) × ((f ≡ none) ⊎ (t ≡ none))
      ⊎ (x ≡ duplicate_edge e.from e.to) × (contains seen (ends e) ≡ true)
      ⊎ (x ≡ edge_into_source e.to) × (t ≡ some source)
      ⊎ (x ≡ edge_out_of_sink e.from) × (f ≡ some sink)
unfolding check_ends_of
check_ends_of-cases seen e none t h = ground arith
check_ends_of-cases seen e (some f) none h = ground arith
check_ends_of-cases seen e (some f) (some t) h = ground arith

-- One edge, behind the edges of `before`.
check_ends_of-Explains :
    (vs : List Vertex) (before : List Edge) (seen : List (VertexName × VertexName)) (e : Edge)
    (es : List Edge) {x : TopologyError}
    → ((p : VertexName × VertexName) → Memᴰ p seen → Memᴰ p (map ends before))
    → check_ends_of seen e (kind_of vs e.from) (kind_of vs e.to) ≡ err x
    → Explains vs (before ++ e ∷ es) x
check_ends_of-Explains vs before seen e es {x} sub h =
    let here : Memᴰ e (before ++ e ∷ es) = Memᴰ.append_right before (Memᴰ.head refl) in
    elim (check_ends_of-cases seen e (kind_of vs e.from) (kind_of vs e.to) h) [
      | inl (p, inl f) ↦ rw p (e, here, refl, inl (kind_of-none vs e.from f))
      | inl (p, inr t) ↦ rw p (e, here, refl, inr (kind_of-none vs e.to t))
      | inr (inl (p, old)) ↦ rw p (
        map ends before,
        map ends es,
        map-append ends before (e ∷ es),
        sub (ends e) ((contains_iff seen (ends e)).0 old),
      )
      | inr (inr (inl (p, t))) ↦ rw p (e, here, refl, kind_of-some vs e.to t)
      | inr (inr (inr (p, f))) ↦ rw p (e, here, refl, kind_of-some vs e.from f)
    ]

check_edges-Explains :
    (vs : List Vertex) (before : List Edge) (seen : List (VertexName × VertexName)) (es : List Edge)
    {x : TopologyError}
    → ((p : VertexName × VertexName) → Memᴰ p seen → Memᴰ p (map ends before))
    → check_edges vs seen es ≡ err x
    → Explains vs (before ++ es) x
unfolding check_edges
check_edges-Explains vs before seen [] sub h = cc
check_edges-Explains vs before seen (e ∷ es) {x} sub h =
    elim (err_of_bind (check_ends_of seen e (kind_of vs e.from) (kind_of vs e.to)) _ h) [
      | inl first ↦ check_ends_of-Explains vs before seen e es sub first
      | inr (_, _, rest) ↦
          subst (λ l. Explains vs l x) (append_assoc before (e ∷ []) es)
            (check_edges-Explains vs (before ++ e ∷ []) (ends e ∷ seen) es
              (λ p m. rw map-append (elim (Memᴰ.cases_cons m) [
                | inl q ↦ Memᴰ.append_right (map ends before) (Memᴰ.head q)
                | inr r ↦ Memᴰ.append_left (ends e ∷ []) (sub p r)
              ]))
              rest)
    ]

-- Each error of `Topology::new` tells the truth: the cause that it names is in the given lists.
pub new-Explains :
    (vs : List Vertex) (es : List Edge) (x : TopologyError) → new vs es ≡ err x → Explains vs es x
unfolding new
new-Explains [] es x h = let p : x ≡ empty = ground (arith, h) in rw p refl
new-Explains (v ∷ vs) es x h = elim (err_of_bind (check_vertices [] (v ∷ vs)) _ h) [
  | inl first ↦ let (n, p, t) = check_vertices-Explains [] [] (v ∷ vs) x (λ n m. m) first in rw p t
  | inr (_, _, rest) ↦ elim (err_of_bind (check_edges (v ∷ vs) [] es) _ rest) [
    | inl q ↦ check_edges-Explains (v ∷ vs) [] [] es (λ p m. m) q
    | inr (_, _, made) ↦ absurd (cc)
  ]
]
