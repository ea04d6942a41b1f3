-- ===== src/Service/Status/Mono.antt =====
-- The view of a MonoVertex (crates/nfctl-core/src/service/status.rs).
use nfctl.Common.{List, [], ◌∷◌, ◌++◌, Option, none, Result, ok, err, string_eq, option_eq, bool_eq}
use nfctl.Common.Int.{int_eq}
use nfctl.Error.{Error}
use nfctl.Ports.{ClusterPort, DaemonPort, DaemonConnector, Io, ◌>>=◌, give}
use nfctl.Model.Time.{Timestamp}
use nfctl.Model.Runtime.{VertexMetrics, PipelineHealth}
use nfctl.Model.MonoVertex.{MonoVertex, MonoVertexKey}
use nfctl.Service.Status.{
  ViewWarning, daemon_unavailable, health_failed, metrics_failed, answered, answered_list,
  warn_failed,
}

pub record MonoVertexView (F : Type 0) : Type 0 where
  pub monovertex : MonoVertex
  pub health : Option PipelineHealth
  pub metrics : List (VertexMetrics F)
  pub warnings : List ViewWarning
  pub at : Timestamp

-- The two questions of a MonoVertex's daemon.
unfoldable pub ask_monovertex :
    {F : Type 0}
    → Result Error (DaemonPort F)
    → Option PipelineHealth × List (VertexMetrics F) × List ViewWarning
ask_monovertex (err e) = (none, [], daemon_unavailable e ∷ [])
ask_monovertex (ok d) = (
  answered d.health,
  answered_list (d.vertex_metrics none),
  warn_failed health_failed d.health ++ warn_failed metrics_failed (d.vertex_metrics none),
)

-- `monovertex_view`
unfoldable pub monovertex_view :
    {W F : Type 0}
    → ClusterPort W F
    → DaemonConnector F
    → MonoVertexKey
    → Timestamp
    → Io W (MonoVertexView F)
monovertex_view cluster daemons key now = cluster.get_monovertex key >>= λ mv.
    let (health, metrics, warnings) = ask_monovertex (daemons.connect_monovertex key) in
    give (record {
      monovertex = mv;
      health = health;
      metrics = metrics;
      warnings = warnings;
      at = now;
    })
