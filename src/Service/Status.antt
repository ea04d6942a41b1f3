-- ===== src/Service/Status.antt =====
-- crates/nfctl-core/src/service/status.rs: the view of a pipeline, joined from the
-- cluster and the daemon. A warning is a constructor with the error that the code formats into it.
-- The elapsed times that the code measures are arguments.
pub mod Pending
pub mod Join
pub mod Mono
use nfctl.Common.{
  ℕ, ◌+◌, String, Bool, true, false, not, ◌&&◌, List, [], ◌∷◌, ◌++◌, map, flatten, Option, none,
  some, Result, ok, err, PartialEq, ◌==◌, string_eq, option_eq, bool_eq, if◌then◌else◌, is_empty,
  keep, find, all, any, contains,
}
use mathlib.Core.Option
use nfctl.Common.Int.{ℤ, pos, negsuc, int_eq, checked_add}
use nfctl.Error.{Error}
use nfctl.Ports.{ClusterPort, DaemonPort, DaemonConnector, Io, ◌>>=◌, give}
use nfctl.Model.Ids.{VertexName, PipelineKey}
use nfctl.Model.Time.{Timestamp, Duration}
use nfctl.Model.Topology.{VertexKind, Vertex, Edge, Topology}
use nfctl.Model.Runtime.{
  Float, Fraction, BufferInfo, Windows, no_windows, VertexMetrics, EdgeWatermark, PipelineHealth,
}
use nfctl.Model.Pipeline.{Pipeline}
use nfctl.Model.MonoVertex.{MonoVertex, MonoVertexKey}

pub record VertexView (F : Type 0) : Type 0 where
  pub name : VertexName
  pub kind : VertexKind
  pub partitions : ℕ
  pub rate : Windows F
  pub pending : Windows ℤ

pub record EdgeView (F : Type 0) : Type 0 where
  pub from : VertexName
  pub to : VertexName
  pub buffers : List (BufferInfo F)
  pub watermark : Option EdgeWatermark

-- One step of the `try_fold` in `total_pending`; the total is never negative.
pub add_count : ℕ → Option ℤ → Option ℕ
add_count total none = none
add_count total (some (negsuc _)) = none
add_count total (some (pos n)) = checked_add total n

-- `try_fold` over the buffers.
pub add_pending : {F : Type 0} → ℕ → List (BufferInfo F) → Option ℕ
add_pending total [] = some total
add_pending total (b ∷ bs) = Option.bind (add_count total b.pending) (λ t. add_pending t bs)

-- `total_pending`
pub total_pending : {F : Type 0} → List (BufferInfo F) → Option ℤ
total_pending bs = Option.map pos (add_pending 0 bs)

-- `EdgeView::pending`
pub edge_pending : {F : Type 0} → EdgeView F → Option ℤ
edge_pending e = if is_empty e.buffers then none else total_pending e.buffers

-- The `reduce(f64::max)` over the usages that are known.
unfoldable pub max_usage : {F : Type 0} → Float F → Option F → List (BufferInfo F) → Option F
max_usage f best [] = best
max_usage f best (b ∷ bs) = elim b.usage [
  | none ↦ max_usage f best bs
  | some u ↦ max_usage f (some (elim best [ none ↦ u.get | some x ↦ f.max x u.get ])) bs
]

-- `EdgeView::usage`
unfoldable pub usage : {F : Type 0} → Float F → EdgeView F → Option F
usage f e = max_usage f none e.buffers

-- `EdgeView::is_full`
unfoldable pub is_full : {F : Type 0} → EdgeView F → Bool
is_full e = any (λ b. b.is_full == some true) e.buffers

pub record Timings : Type 0 where
  pub spec : Duration
  pub connect : Duration
  pub numbers : Duration

-- `Timings::total`
unfoldable pub total : Timings → Duration
total t = t.spec + t.connect + t.numbers

pub data ViewWarning : Type 0 where
  daemon_unavailable health_failed metrics_failed buffers_failed watermarks_failed :
      Error → ViewWarning

pub record PipelineView (F : Type 0) : Type 0 where
  pub pipeline : Pipeline F
  pub health : Option PipelineHealth
  pub vertices : List (VertexView F)
  pub edges : List (EdgeView F)
  pub warnings : List ViewWarning
  pub at : Timestamp
  pub timings : Timings

-- `b.pending == Some(0) && b.ack_pending == Some(0)`
unfoldable pub is_drained : {F : Type 0} → BufferInfo F → Bool
is_drained b = b.pending == some (pos 0) && b.ack_pending == some (pos 0)

-- `PipelineView::drained`
pub drained : {F : Type 0} → PipelineView F → Option Bool
drained v =
    if all (λ e. is_empty e.buffers) v.edges
    then none
    else some (all is_drained (flatten (map (λ e. e.buffers) v.edges)))

-- `Daemon`: what a daemon answered, or the parts of it that did.
pub record Answers (F : Type 0) : Type 0 where
  pub health : Option PipelineHealth
  pub metrics : List (VertexMetrics F)
  pub buffers : List (BufferInfo F)
  pub watermarks : List EdgeWatermark

abbrev pub no_answers : {F : Type 0} → Answers F
no_answers = record { health = none; metrics = []; buffers = []; watermarks = [] }

-- An answer, or nothing; and the warning for an answer that failed.
abbrev pub answered : {A : Type 0} → Result Error A → Option A
answered (ok a) = some a
answered (err e) = none

abbrev pub answered_list : {A : Type 0} → Result Error (List A) → List A
answered_list (ok xs) = xs
answered_list (err e) = []

abbrev pub warn_failed : {A : Type 0} → (Error → ViewWarning) → Result Error A → List ViewWarning
warn_failed w (ok a) = []
warn_failed w (err e) = w e ∷ []

-- The four questions of one daemon, each answer on its own.
pub ask_daemon : {F : Type 0} → DaemonPort F → Answers F × List ViewWarning
ask_daemon d = (
  record {
    health = answered d.health;
    metrics = answered_list (d.vertex_metrics none);
    buffers = answered_list d.buffers;
    watermarks = answered_list d.watermarks;
  },
  warn_failed health_failed d.health
      ++ warn_failed metrics_failed (d.vertex_metrics none)
      ++ warn_failed buffers_failed d.buffers
      ++ warn_failed watermarks_failed d.watermarks,
)

-- `ask`
pub ask : {F : Type 0} → DaemonConnector F → PipelineKey → Topology → Answers F × List ViewWarning
ask daemons key t = elim (daemons.connect key (some t)) [
  | err e ↦ (no_answers, daemon_unavailable e ∷ [])
  | ok d ↦ ask_daemon d
]

-- The two closures of `assemble`.
pub vertex_view : {F : Type 0} → List (VertexMetrics F) → Vertex → VertexView F
vertex_view metrics v =
    let m = find (λ m. m.vertex == v.name) metrics in
    record {
      name = v.name;
      kind = v.kind;
      partitions = v.partitions;
      rate = elim m [ none ↦ no_windows | some x ↦ x.rate ];
      pending = elim m [ none ↦ no_windows | some x ↦ x.pending ];
    }

pub edge_view : {F : Type 0} → List (BufferInfo F) → List EdgeWatermark → Edge → EdgeView F
edge_view buffers watermarks e = record {
  from = e.from;
  to = e.to;
  buffers = keep (λ b. contains b.sources e.from && b.to == e.to) buffers;
  watermark = find (λ w. w.from == e.from && w.to == e.to) watermarks;
}

-- `assemble`
pub assemble :
    {F : Type 0} → Pipeline F → Answers F → List ViewWarning → Timings → Timestamp → PipelineView F
assemble pipeline got warnings timings now = record {
  pipeline = pipeline;
  health = got.health;
  vertices = map (vertex_view got.metrics) pipeline.spec.topology.vertices;
  edges = map (edge_view got.buffers got.watermarks) pipeline.spec.topology.edges;
  warnings = warnings;
  at = now;
  timings = timings;
}

module _ {F : Type 0} where
  -- `pipeline_shape`; `spec` is the time that the read took.
  pub pipeline_shape :
      {W : Type 0}
      → ClusterPort W F
      → PipelineKey
      → (spec : Duration) → Timestamp
      → Io W (PipelineView F)
  pipeline_shape cluster key spec now = cluster.get_pipeline key >>= λ pipeline.
      give (assemble pipeline no_answers [] (record { spec = spec; connect = 0; numbers = 0 }) now)

  -- `pipeline_numbers`
  pub pipeline_numbers :
      DaemonConnector F → PipelineView F → (connect numbers : Duration) → Timestamp → PipelineView F
  pipeline_numbers daemons shape connect numbers now =
      let (got, warnings) = ask daemons shape.pipeline.key shape.pipeline.spec.topology in
      assemble shape.pipeline got warnings
        (record shape.timings { connect = connect; numbers = numbers }) now

  -- `pipeline_view`
  pub pipeline_view :
      {W : Type 0}
      → ClusterPort W F
      → DaemonConnector F
      → PipelineKey
      → Timings
      → Timestamp
      → Io W (PipelineView F)
  pipeline_view cluster daemons key took now = pipeline_shape cluster key took.spec now >>= λ shape.
      give (pipeline_numbers daemons shape took.connect took.numbers now)
