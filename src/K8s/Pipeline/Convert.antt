-- ===== src/K8s/Pipeline/Convert.antt =====
-- `into_pipeline` (crates/nfctl-k8s/src/dto/pipeline.rs): which objects it converts, and what into.
use nfctl.Common.{
  true, List, [], ◌∷◌, string_eq, or_else, ok, map_err, traverse, is_ok, Each, traverse-ok,
  traverse-of_all, Each-all, Each-weaken, ok_of_bind, after_bind, ◌≡◌, ◌↔◌, inl, inr, refl, sym, ap,
  ◌∙◌, subst, All, Result-cases, ok_injective,
}
use nfctl.Model.Ids.{new_name, max_label}
use nfctl.Model.Topology.{Vertex, Edge, Topology, new}
use nfctl.Model.Topology.Valid.{IsValid, new_iff}
use nfctl.Model.Pipeline.{Pipeline, Lifecycle}
use nfctl.K8s.Object.{Object, Formats, invalid, bad_name, bad_namespace, bad_isb, bad_topology}
use nfctl.K8s.Dto.{LifecycleDto, PipelineSpecDto, PipelineStatusDto}
use nfctl.K8s.Pipeline.Texts.{OneOf, is_ok_iff, desired_of_iff, strategy_of_iff}
use nfctl.K8s.Pipeline.Parts.{
  name-ok, ok-name, VertexOk, VertexOf, EdgeOk, vertex_of_sound, vertex_of_complete, edge_of_sound,
  edge_of_complete,
}
use nfctl.K8s.Pipeline.Fields.{VertexFields, EdgeFields, vertex_of-VertexFields, edge_of-EdgeFields}
use nfctl.K8s.Pipeline.Accepts.{Acceptable, IsGraph, IsGraph-of_IsValid, IsValid-of_IsGraph}
use nfctl.K8s.Pipeline.{
  from_secs, or_option, vertex_of, edge_of, desired_of, lifecycle_from, strategy_of, convert,
  into_pipeline,
}

lifecycle_from-ok :
    (lc : LifecycleDto)
    → ((l : Lifecycle) × (lifecycle_from lc ≡ ok l))
      ↔ OneOf lc.desired_phase ("Paused" ∷ "Running" ∷ [])
unfolding lifecycle_from
lifecycle_from-ok lc = (
  λ (l, h).
      let (d, p, _) = ok_of_bind (desired_of lc.desired_phase) _ h in
      (desired_of_iff lc.desired_phase).0 (d, p),
  λ h.
      let (d, p) = (desired_of_iff lc.desired_phase).1 h in
      (
        record {
          desired = d;
          pause_grace = from_secs (or_else lc.pause_grace_period_seconds 30);
          deletion_grace = from_secs (
              or_else (or_option lc.deletion_grace_period_seconds lc.delete_grace_period_seconds)
                30);
        },
        rw p refl,
      ),
)

topology-ok :
    (vs : List Vertex) (es : List Edge) (t : Topology)
    → map_err bad_topology (new vs es) ≡ ok t
    → IsValid vs es × (t ≡ record { vertices = vs; edges = es })
topology-ok vs es t h = elim (Result-cases (new vs es)) [
  | inl (u, p) ↦
      let (valid, same) = (new_iff vs es u).0 p in
      (valid, ok_injective (sym h ∙ ap (map_err bad_topology) p) ∙ same)
  | inr (x, p) ↦ absurd (cc (h, ap (map_err bad_topology) p))
]

-- What the result of a conversion is made of.
pub record Made {F J : Type 0} (o : Object (PipelineSpecDto J) PipelineStatusDto) (p : Pipeline F)
    : Type 0 where
  pub vertices : Each VertexOf o.spec.vertices p.spec.topology.vertices
  pub fields : Each VertexFields o.spec.vertices p.spec.topology.vertices
  pub edges : Each EdgeFields o.spec.edges p.spec.topology.edges
  pub valid : IsValid p.spec.topology.vertices p.spec.topology.edges

module _ {F J : Type 0} (w : Formats F) (o : Object (PipelineSpecDto J) PipelineStatusDto) where
  parts_sound :
      (vs : List Vertex) (es : List Edge) (t : Topology)
      → traverse vertex_of o.spec.vertices ≡ ok vs
      → traverse edge_of o.spec.edges ≡ ok es
      → map_err bad_topology (new vs es) ≡ ok t
      → All VertexOk o.spec.vertices
        × All EdgeOk o.spec.edges
        × IsGraph o.spec.vertices o.spec.edges
        × Each VertexOf o.spec.vertices t.vertices
        × Each VertexFields o.spec.vertices t.vertices
        × Each EdgeFields o.spec.edges t.edges
        × IsValid t.vertices t.edges
  parts_sound vs es t hv he made =
      let dv = traverse-ok vertex_of o.spec.vertices vs hv in
      let de = traverse-ok edge_of o.spec.edges es he in
      let matched =
        Each-weaken (λ d v. vertex_of d ≡ ok v) o.spec.vertices vs
          (λ d v h. (vertex_of_sound d v h).1) dv in
      let paired =
        Each-weaken (λ d e. edge_of d ≡ ok e) o.spec.edges es
          (λ d e h. ((edge_of_sound d e h).1, (edge_of_sound d e h).2)) de in
      let read =
        Each-weaken (λ d v. vertex_of d ≡ ok v) o.spec.vertices vs vertex_of-VertexFields dv in
      let drawn = Each-weaken (λ d e. edge_of d ≡ ok e) o.spec.edges es edge_of-EdgeFields de in
      let (valid, same) = topology-ok vs es t made in
      (
        Each-all (λ d v. vertex_of d ≡ ok v) o.spec.vertices vs (λ d v h. (vertex_of_sound d v h).0)
            dv,
        Each-all (λ d e. edge_of d ≡ ok e) o.spec.edges es (λ d e h. (edge_of_sound d e h).0) de,
        IsGraph-of_IsValid o.spec.vertices vs matched o.spec.edges es paired valid,
        rw same matched,
        rw same read,
        rw same drawn,
        rw same valid,
      )

  convert_sound : {p : Pipeline F} → convert w o ≡ ok p → Acceptable o × Made o p
  unfolding convert
  convert_sound {p} h0 = after_bind (map_err bad_name (new_name max_label _)) _ h0 λ n name h1.
      after_bind (map_err bad_namespace (new_name max_label _)) _ h1 λ ns namespace h2.
        after_bind (traverse vertex_of o.spec.vertices) _ h2 λ vs vertices h3.
          after_bind (traverse edge_of o.spec.edges) _ h3 λ es edges h4.
            after_bind (map_err bad_topology (new vs es)) _ h4 λ t made h5.
              after_bind (map_err bad_isb (new_name max_label _)) _ h5 λ i isb h6.
                after_bind (strategy_of _) _ h6 λ s strategy h7.
                  after_bind (lifecycle_from o.spec.lifecycle) _ h7 λ l lifecycle result.
                    let (good_vertices, good_edges, graph, matched, read, drawn, valid) =
                      parts_sound vs es t vertices edges made in
                    let same : t ≡ p.spec.topology =
                      ap (λ (x : Pipeline F). x.spec.topology) (ok_injective result) in
                    (
                      record {
                        name = (name-ok bad_name _ n name).1;
                        namespace = (name-ok bad_namespace _ ns namespace).1;
                        vertices = good_vertices;
                        edges = good_edges;
                        graph = graph;
                        isb = (name-ok bad_isb _ i isb).1;
                        strategy = (strategy_of_iff _).0 (s, strategy);
                        desired = (lifecycle_from-ok o.spec.lifecycle).0 (l, lifecycle);
                      },
                      record {
                        vertices =
                            subst (λ u. Each VertexOf o.spec.vertices u.vertices) same matched;
                        fields =
                            subst (λ u. Each VertexFields o.spec.vertices u.vertices) same read;
                        edges = subst (λ u. Each EdgeFields o.spec.edges u.edges) same drawn;
                        valid = subst (λ u. IsValid u.vertices u.edges) same valid;
                      },
                    )

  convert_complete : Acceptable o → (p : Pipeline F) × (convert w o ≡ ok p)
  unfolding convert
  convert_complete good =
      let (vs, vertices) =
        traverse-of_all vertex_of o.spec.vertices vertex_of_complete good.vertices in
      let (es, edges) = traverse-of_all edge_of o.spec.edges edge_of_complete good.edges in
      let matched =
        Each-weaken (λ d v. vertex_of d ≡ ok v) o.spec.vertices vs
          (λ d v h. (vertex_of_sound d v h).1)
          (traverse-ok vertex_of o.spec.vertices vs vertices) in
      let paired =
        Each-weaken (λ d e. edge_of d ≡ ok e) o.spec.edges es
          (λ d e h. ((edge_of_sound d e h).1, (edge_of_sound d e h).2))
          (traverse-ok edge_of o.spec.edges es edges) in
      let valid = IsValid-of_IsGraph o.spec.vertices vs matched o.spec.edges es paired good.graph in
      let made = (new_iff vs es (record { vertices = vs; edges = es })).1 (valid, refl) in
      let (s, strategy) = (strategy_of_iff _).1 good.strategy in
      let (l, lifecycle) = (lifecycle_from-ok o.spec.lifecycle).1 good.desired in
      (is_ok_iff (convert w o)).0 (
        rw
          (
            ok-name bad_name _ good.name,
            ok-name bad_namespace _ good.namespace,
            vertices,
            edges,
            made,
            ok-name bad_isb _ good.isb,
            strategy,
            lifecycle,
          )
          refl)

  into_pipeline_inv : {p : Pipeline F} → into_pipeline w o ≡ ok p → convert w o ≡ ok p
  unfolding into_pipeline
  into_pipeline_inv {p} h = elim (Result-cases (convert w o)) [
    | inl (q, c) ↦
        c
        ∙ ap ok (
            ok_injective
              (sym (ap (map_err (invalid "pipeline" (or_else o.metadata.name ""))) c) ∙ h))
    | inr (x, c) ↦ absurd (cc (h, ap (map_err (invalid "pipeline" (or_else o.metadata.name ""))) c))
  ]

-- `into_pipeline` converts exactly the objects whose names are RFC 1123 labels of at most 63 bytes,
-- whose vertices set one of source, sink and udf and not zero partitions, whose edges have a known
-- operator and policy, whose resume strategy and desired phase are known, and whose vertices and
-- edges make up a graph.
pub into_pipeline_iff :
    {F J : Type 0} (w : Formats F) (o : Object (PipelineSpecDto J) PipelineStatusDto)
    → (is_ok (into_pipeline w o) ≡ true) ↔ Acceptable o
unfolding into_pipeline
into_pipeline_iff w o = (
  λ h.
      let (p, q) = (is_ok_iff (into_pipeline w o)).0 h in
      (convert_sound w o (into_pipeline_inv w o q)).0,
  λ good. let (p, q) = convert_complete w o good in rw q refl,
)

-- A pipeline that `into_pipeline` returns has a topology that `Topology::new` accepts, whose vertices
-- and edges are those of the object, in order. A vertex has the name, the kind, the image of its udf
-- and the scale that the object sets: it is a source or a sink if that is set, a reduce if it has a
-- udf that groups, a map if it has one that does not; a source has one partition, any other the number
-- that is given, and none fewer than one. An edge has the ends, the tags with their operator and the
-- policy that the object sets, by default `or` and to retry until it succeeds.
pub into_pipeline-Made :
    {F J : Type 0} (w : Formats F) (o : Object (PipelineSpecDto J) PipelineStatusDto)
    (p : Pipeline F)
    → into_pipeline w o ≡ ok p
    → Made o p
into_pipeline-Made w o p h = (convert_sound w o (into_pipeline_inv w o h)).1
