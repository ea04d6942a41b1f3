-- ===== src/Tests/Services.antt =====
-- The services on small clusters (crates/nfctl-core/src/service), with numbers for floats.
use nfctl.Common.{
  ℕ, true, false, List, [], ◌∷◌, none, some, ok, err, ◌≡◌, ◌≢◌, ◌↔◌, ◌≤◌, refl, Memᴰ, find,
}
use nfctl.Common.Int.{pos, i64_max}
use nfctl.Error.{Error, daemon}
use nfctl.Ports.{DaemonPort, DaemonConnector}
use nfctl.Model.Ids.{pipeline_key_eq, PipelineKey, PodName}
use nfctl.Model.Pipeline.{Pipeline, PipelinePhase, DesiredPhase}
use nfctl.Model.Runtime.{BufferInfo}
use nfctl.Model.Pods.{PodRef, PodPhase}
use nfctl.Fake.{State, find_pipeline, get_pipeline}
use nfctl.Fake.Daemons.{connector}
use nfctl.Fake.Port.{fake_cluster}
use nfctl.Service.Status.{
  EdgeView, PipelineView, Timings, edge_pending, drained, pipeline_view, daemon_unavailable,
  assemble, no_answers,
}
use nfctl.Service.Status.Pending.{sum, Counted, edge_pending_iff, drained_iff}
use nfctl.Service.Status.Join.{OfCluster, pipeline_view_total}
use nfctl.Tests.Shapes.{linear}

abbrev pub key : PipelineKey
key = record { namespace = "ns"; name = "p" }

abbrev pub sample_pipeline : PipelinePhase → Pipeline ℕ
sample_pipeline phase = record {
  key = key;
  meta = record {
    generation = some (pos 1);
    created = some 0;
    instance_ = none;
    resume_strategy = none;
  };
  spec = record {
    isb = "default";
    lifecycle = record { desired = DesiredPhase.running; pause_grace = 30; deletion_grace = 30 };
    limits = record {
      read_batch_size = 500;
      buffer_max_length = 30000;
      buffer_usage_limit = record { get = 80 };
    };
    topology = linear;
  };
  status = record {
    phase = phase;
    message = none;
    conditions = [];
    observed_generation = none;
    drained_on_pause = false;
    counts = record { total = 3; sources = 1; sinks = 1; udfs = 1; map_udfs = 1; reduce_udfs = 0 };
    pause_started = none;
    last_updated = none;
  };
}

abbrev pub sample_pod : PodName → PodRef
sample_pod name = record {
  name = name;
  phase = PodPhase.running;
  containers = record { name = "numa"; running = true; restart_count = 0; is_init = false } ∷ [];
  default_container = none;
}

abbrev pub cluster : State ℕ
cluster = record {
  pipelines = sample_pipeline PipelinePhase.running ∷ [];
  monovertices = [];
  isbs = [];
  manifests = [];
  scaled = [];
  pods = sample_pod "p-b" ∷ sample_pod "p-a" ∷ [];
  pod_watchers = [];
  scripts = [];
  tail_calls = [];
  hung = 0;
  fixture = none;
}

abbrev buffer : BufferInfo ℕ
buffer = record {
  name = "default-p-cat-0";
  sources = "in" ∷ [];
  to = "cat";
  pending = some (pos 4);
  ack_pending = some (pos 0);
  total = some (pos 4);
  length = some (pos 100);
  usage = none;
  usage_limit = none;
  is_full = some false;
}

abbrev pub daemons : DaemonConnector ℕ
daemons = connector (record {
  default = record { buffers = buffer ∷ []; metrics = []; watermarks = []; health = none };
  by_name = [];
})

abbrev took : Timings
took = record { spec = 1; connect = 2; numbers = 3 }

edge_pending_iff_example :
    (edge_pending (record { from = "in"; to = "cat"; buffers = buffer ∷ []; watermark = none })
      ≡ some (pos 4))
    ↔ (((buffer ∷ []) ≢ [])
        × ((ns : List ℕ) × Counted (buffer ∷ []) ns × (pos 4 ≡ pos (sum ns)) × sum ns ≤ i64_max))
edge_pending_iff_example =
    edge_pending_iff (record { from = "in"; to = "cat"; buffers = buffer ∷ []; watermark = none })
      (pos 4)

abbrev view : PipelineView ℕ
view = record {
  pipeline = sample_pipeline PipelinePhase.running;
  health = none;
  vertices = [];
  edges = record { from = "in"; to = "cat"; buffers = buffer ∷ []; watermark = none } ∷ [];
  warnings = [];
  at = 5;
  timings = took;
}

drained_iff_example :
    ((drained view ≡ none) ↔ ((e : EdgeView ℕ) → Memᴰ e view.edges → e.buffers ≡ []))
    × ((drained view ≡ some true) ↔ (
        ((e : EdgeView ℕ) × Memᴰ e view.edges × (e.buffers ≢ []))
        × ((e : EdgeView ℕ) (b : BufferInfo ℕ)
            → Memᴰ e view.edges
            → Memᴰ b e.buffers
            → (b.pending ≡ some (pos 0)) × (b.ack_pending ≡ some (pos 0)))))
drained_iff_example = drained_iff view

got : fake_cluster.get_pipeline key cluster ≡ (ok (sample_pipeline PipelinePhase.running), cluster)
unfolding fake_cluster get_pipeline find_pipeline find
got = refl

pipeline_view_total_example :
    (v : PipelineView ℕ) × (pipeline_view fake_cluster daemons key took 5 cluster ≡ (ok v, cluster))
    × OfCluster (sample_pipeline PipelinePhase.running) v
    × ((e : Error)
        → daemons.connect key (some linear) ≡ err e
        → v
          ≡ assemble
              (sample_pipeline PipelinePhase.running)
              no_answers
              (daemon_unavailable e ∷ [])
              took
              5)
pipeline_view_total_example =
    pipeline_view_total fake_cluster daemons key took 5 cluster cluster
      (sample_pipeline PipelinePhase.running) got

abbrev silent : DaemonPort ℕ
silent = record {
  buffers = ok [];
  buffer = λ n. err (daemon "no buffer");
  vertex_metrics = λ v. ok [];
  watermarks = ok [];
  health = err (daemon "no health configured");
}
