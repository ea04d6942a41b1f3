-- ===== src/Fake/Daemons.antt =====
-- The daemons of the fake (crates/nfctl-core/src/fake/mod.rs).
use nfctl.Common.{
  Bool, true, List, [], ◌∷◌, Option, none, some, ok, err, ◌==◌, string_eq, if◌then◌else◌, keep,
  find,
}
use nfctl.Error.{daemon}
use nfctl.Ports.{DaemonPort, DaemonConnector}
use nfctl.Model.Ids.{PipelineName, VertexName}
use nfctl.Model.Runtime.{BufferInfo, VertexMetrics, EdgeWatermark, PipelineHealth}
use nfctl.Fake.{or_not_found}

pub record FakeDaemon (F : Type 0) : Type 0 where
  pub buffers : List (BufferInfo F)
  pub metrics : List (VertexMetrics F)
  pub watermarks : List EdgeWatermark
  pub health : Option PipelineHealth

pub record FakeDaemons (F : Type 0) : Type 0 where
  pub default : FakeDaemon F
  pub by_name : List (PipelineName × FakeDaemon F)

abbrev pub is_vertex : Option VertexName → VertexName → Bool
is_vertex none n = true
is_vertex (some v) n = n == v

module _ {F : Type 0} where
  -- `impl DaemonPort for FakeDaemon`
  unfoldable pub daemon_port : FakeDaemon F → DaemonPort F
  daemon_port d = record {
    buffers = ok d.buffers;
    buffer = λ n. or_not_found "buffer" n (find (λ b. b.name == n) d.buffers);
    vertex_metrics = λ v. ok (keep (λ m. is_vertex v m.vertex) d.metrics);
    watermarks = ok d.watermarks;
    health = elim d.health [ none ↦ err (daemon "no health configured") | some h ↦ ok h ];
  }

  -- `FakeDaemons::for_name`
  unfoldable pub daemon_for :
      List (PipelineName × FakeDaemon F) → PipelineName → FakeDaemon F → FakeDaemon F
  daemon_for [] name d = d
  daemon_for ((n, x) ∷ m) name d = if n == name then x else daemon_for m name d

  -- `impl DaemonConnector for FakeDaemons`
  unfoldable pub connector : FakeDaemons F → DaemonConnector F
  connector f = record {
    connect = λ key t. ok (daemon_port (daemon_for f.by_name key.name f.default));
    connect_monovertex = λ key. ok (daemon_port (daemon_for f.by_name key.name f.default));
  }
