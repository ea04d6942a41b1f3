-- ===== src/K8s/Pipeline/Accepts.antt =====
-- Which wire objects `into_pipeline` (crates/nfctl-k8s/src/dto/pipeline.rs) converts.
use nfctl.Common.{
  String, true, false, List, [], ◌∷◌, Option, string_eq, or_else, is_some, map, Each, Each-map,
  Each-nil, Each-right, Each-left, ◌≡◌, ◌≢◌, ◌↔◌, inl, inr, refl, sym, ◌∙◌, subst, arith, Memᴰ,
  Bool-cases, All,
}
use mathlib.Core.List.Memᴰ
use nfctl.Model.Ids.{VertexName}
use nfctl.Model.Topology.{VertexKind, source, sink, Vertex, Edge, ends}
use nfctl.Model.Topology.Valid.{Fresh, IsValid, Ends, Resolves, AllResolve, names}
use nfctl.Model.Pods.{get_label, resume_strategy_label}
use nfctl.K8s.Object.{Object, annotations_of}
use nfctl.K8s.Dto.{VertexDto, EdgeDto, PipelineSpecDto, PipelineStatusDto}
use nfctl.K8s.Pipeline.Texts.{OneOf}
use nfctl.K8s.Pipeline.Parts.{IsName, VertexOk, VertexOf, EdgeOk}

-- A vertex of the wire object by that name, with that marker not set.
abbrev pub Without :
    {J : Type 0} → (VertexDto J → Option J) → List (VertexDto J) → VertexName → Type 0
Without {J} marker ds n =
    (d : VertexDto J) × Memᴰ d ds × (d.name ≡ n) × (is_some (marker d) ≡ false)

abbrev pub wire_ends : EdgeDto → String × String
wire_ends d = (d.from, d.to)

-- The vertices and edges make up a graph: some vertex, no name and no edge twice, and every edge
-- leaves a vertex that is no sink and enters one that is no source.
pub record IsGraph {J : Type 0} (ds : List (VertexDto J)) (es : List EdgeDto) : Type 0 where
  pub some_vertex : ds ≢ []
  pub names_unique : Fresh [] (map (λ d. d.name) ds)
  pub edges_unique : Fresh [] (map wire_ends es)
  pub resolve :
      (e : EdgeDto) → Memᴰ e es → Without (λ d. d.sink) ds e.from × Without (λ d. d.source) ds e.to

pub record Acceptable {J : Type 0} (o : Object (PipelineSpecDto J) PipelineStatusDto) : Type 0 where
  pub name : IsName (or_else o.metadata.name "")
  pub namespace : IsName (or_else o.metadata.namespace "")
  pub vertices : All VertexOk o.spec.vertices
  pub edges : All EdgeOk o.spec.edges
  pub graph : IsGraph o.spec.vertices o.spec.edges
  pub isb : IsName (or_else o.spec.inter_step_buffer_service_name "default")
  pub strategy :
      OneOf (get_label (annotations_of o.metadata) resume_strategy_label) ("slow" ∷ "fast" ∷ [])
  pub desired : OneOf o.spec.lifecycle.desired_phase ("Paused" ∷ "Running" ∷ [])

AllResolve-iff :
    (vs : List Vertex) (es : List Edge)
    → AllResolve vs es ↔ ((e : Edge) → Memᴰ e es → Resolves vs e)
AllResolve-iff vs [] = (λ _ e m. elim m [ ], λ _. tt)
AllResolve-iff vs (x ∷ xs) = (
  λ (r, rs) e m. elim (Memᴰ.cases_cons m) [
    | inl p ↦ subst (Resolves vs) (sym p) r
    | inr n ↦ (AllResolve-iff vs xs).0 rs e n
  ],
  λ h. (h x (Memᴰ.head refl), (AllResolve-iff vs xs).1 (λ e m. h e (Memᴰ.tail m))),
)

-- The domain's edge has the ends of the wire's.
abbrev pub EdgeOf : EdgeDto → Edge → Type 0
EdgeOf d e = (e.from ≡ d.from) × (e.to ≡ d.to)

module _ {J : Type 0} (ds : List (VertexDto J)) (vs : List Vertex)
    (matched : Each VertexOf ds vs) where
  -- A kind and the marker that sets it.
  module _ (kind : VertexKind) (marker : VertexDto J → Option J)
      (agrees : (d : VertexDto J) (v : Vertex)
        → VertexOf d v
        → (v.kind ≡ kind) ↔ (is_some (marker d) ≡ true)) where
    Without-of_Ends : (n : VertexName) → Ends vs n kind → Without marker ds n
    Without-of_Ends n (v, m, same, ne) =
        let (d, dm, r) = Each-right VertexOf ds vs matched m in
        (
          d,
          dm,
          sym r.name ∙ same,
          elim (Bool-cases (is_some (marker d))) [
            | inl p ↦ absurd (ne ((agrees d v r).1 p))
            | inr p ↦ p
          ],
        )

    Ends-of_Without : (n : VertexName) → Without marker ds n → Ends vs n kind
    Ends-of_Without n (d, m, same, unset) =
        let (v, vm, r) = Each-left VertexOf ds vs matched m in
        (v, vm, r.name ∙ same, λ k. cc (unset, (agrees d v r).0 k))

  module _ (es : List EdgeDto) (fs : List Edge) (paired : Each EdgeOf es fs) where
    same_names : names vs ≡ map (λ d. d.name) ds
    same_names = Each-map VertexOf (λ d. d.name) (λ v. v.name) ds vs (λ d v r. r.name) matched

    same_ends : map ends fs ≡ map wire_ends es
    same_ends = Each-map EdgeOf wire_ends ends es fs (λ d e r. ground (arith, r.0, r.1)) paired

    pub IsGraph-of_IsValid : IsValid vs fs → IsGraph ds es
    IsGraph-of_IsValid valid = record {
      some_vertex = λ p. valid.not_empty ((Each-nil VertexOf ds vs matched).0 p);
      names_unique = subst (Fresh []) same_names valid.names_unique;
      edges_unique = subst (Fresh []) same_ends valid.edges_unique;
      resolve = λ e m.
          let (f, fm, (ef, et)) = Each-left EdgeOf es fs paired m in
          let (from, to) = (AllResolve-iff vs fs).0 valid.resolve f fm in
          (
            Without-of_Ends sink (λ d. d.sink) (λ d v r. r.sink_iff) e.from
                (subst (λ n. Ends vs n sink) ef from),
            Without-of_Ends source (λ d. d.source) (λ d v r. r.source_iff) e.to
                (subst (λ n. Ends vs n source) et to),
          );
    }

    pub IsValid-of_IsGraph : IsGraph ds es → IsValid vs fs
    IsValid-of_IsGraph graph = record {
      not_empty = λ p. graph.some_vertex ((Each-nil VertexOf ds vs matched).1 p);
      names_unique = subst (Fresh []) (sym same_names) graph.names_unique;
      edges_unique = subst (Fresh []) (sym same_ends) graph.edges_unique;
      resolve = (AllResolve-iff vs fs).1 λ f m.
          let (e, em, (ef, et)) = Each-right EdgeOf es fs paired m in
          let (from, to) = graph.resolve e em in
          (
            Ends-of_Without sink (λ d. d.sink) (λ d v r. r.sink_iff) f.from
                (subst (Without (λ d. d.sink) ds) (sym ef) from),
            Ends-of_Without source (λ d. d.source) (λ d v r. r.source_iff) f.to
                (subst (Without (λ d. d.source) ds) (sym et) to),
          );
    }
