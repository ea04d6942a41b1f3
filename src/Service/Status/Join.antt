-- ===== src/Service/Status/Join.antt =====
-- What a view holds (crates/nfctl-core/src/service/status.rs): the cluster's half whatever the
-- daemon does, and the daemon's half on the edges and vertices it belongs to.
use nfctl.Common.{List, [], ◌∷◌, map, some, ok, err, ◌≡◌, refl, ap, string_eq}
use nfctl.Error.{Error}
use nfctl.Ports.{ClusterPort, DaemonConnector, bind_ok}
use nfctl.Model.Ids.{VertexName, PipelineKey}
use nfctl.Model.Time.{Timestamp}
use nfctl.Model.Topology.{ends}
use nfctl.Model.Pipeline.{Pipeline}
use nfctl.Service.Status.{
  EdgeView, PipelineView, Timings, ViewWarning, daemon_unavailable, Answers, no_answers, ask,
  vertex_view, edge_view, assemble, pipeline_shape, pipeline_numbers, pipeline_view,
}

abbrev pub view_ends : {F : Type 0} → EdgeView F → VertexName × VertexName
view_ends e = (e.from, e.to)

map-map_same {ℓ κ μ} :
    {A : Type ℓ} {B : Type κ} {C : Type μ} (f : A → B) (g : B → C) (h : A → C)
    → ((a : A) → g (f a) ≡ h a)
    → (xs : List A) → map g (map f xs) ≡ map h xs
map-map_same f g h e [] = refl
map-map_same f g h e (x ∷ xs) = cc (e x, map-map_same f g h e xs)

-- The half of a view that the cluster knows.
pub record OfCluster {F : Type 0} (p : Pipeline F) (v : PipelineView F) : Type 0 where
  pub pipeline : v.pipeline ≡ p
  pub vertices : map (λ x. x.name) v.vertices ≡ map (λ x. x.name) p.spec.topology.vertices
  pub edges : map view_ends v.edges ≡ map ends p.spec.topology.edges

assemble-OfCluster :
    {F : Type 0} (p : Pipeline F) (got : Answers F) (ws : List ViewWarning) (took : Timings)
    (now : Timestamp)
    → OfCluster p (assemble p got ws took now)
unfolding assemble vertex_view edge_view
assemble-OfCluster p got ws took now = record {
  pipeline = refl;
  vertices =
      map-map_same (vertex_view got.metrics) (λ x. x.name) (λ x. x.name) (λ _. refl)
        p.spec.topology.vertices;
  edges =
      map-map_same (edge_view got.buffers got.watermarks) view_ends ends (λ _. refl)
        p.spec.topology.edges;
}

ask_unreachable :
    {F : Type 0} (d : DaemonConnector F) (p : Pipeline F) (e : Error)
    → d.connect p.key (some p.spec.topology) ≡ err e
    → ask d p.key p.spec.topology ≡ (no_answers, daemon_unavailable e ∷ [])
unfolding ask
ask_unreachable d p e q = rw (q, ask) refl

-- The view of a pipeline that the cluster gives never fails, whatever the daemon does: it has the
-- vertices and the edges of the pipeline's topology, in order. A daemon that cannot be reached
-- leaves the shape as it is, with exactly the one warning that says why.
pub pipeline_view_total :
    {W F : Type 0} (c : ClusterPort W F) (d : DaemonConnector F) (key : PipelineKey)
    → (took : Timings) (now : Timestamp) (w s : W) (p : Pipeline F)
    → c.get_pipeline key w ≡ (ok p, s)
    → (v : PipelineView F) × (pipeline_view c d key took now w ≡ (ok v, s))
      × OfCluster p v
      × ((e : Error)
          → d.connect p.key (some p.spec.topology) ≡ err e
          → v ≡ assemble p no_answers (daemon_unavailable e ∷ []) took now)
unfolding pipeline_view pipeline_shape pipeline_numbers ask assemble
pipeline_view_total c d key took now w s p h = (
  _,
  bind_ok (pipeline_shape c key took.spec now) _ (bind_ok (c.get_pipeline key) _ h),
  assemble-OfCluster p _ _ _ now,
  λ e q.
      ap (λ (x : Answers _ × List ViewWarning). assemble p x.0 x.1 took now)
        (ask_unreachable d p e q),
)
