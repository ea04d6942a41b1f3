-- ===== src/K8s/Pipeline.antt =====
-- crates/nfctl-k8s/src/dto/pipeline.rs: a wire object as a pipeline of the domain. `F` stands for
-- `f64`, `J` for a JSON document.
pub mod Texts
pub mod Parts
pub mod Accepts
pub mod Fields
pub mod Convert
use nfctl.Common.{
  ℕ, ◌*◌, String, Bool, true, false, List, [], ◌∷◌, Option, none, some, ◌==◌, string_eq, nat_eq,
  option_eq, or_else, map, if◌then◌else◌, Result, ok, err, ◌>>=◌, map_err, traverse,
}
use nfctl.Model.Ids.{new_name, max_label}
use nfctl.Model.Time.{Timestamp, Duration}
use nfctl.Model.Topology.{
  VertexKind, source, sink, reduce, ScaleSpec, Vertex, TagOperator, TagCondition, OnFull,
  retry_until_success, discard_latest, Edge, new, TopologyError,
}
use nfctl.Model.Runtime.{from_percent}
use nfctl.Model.Pipeline.{
  Pipeline, PipelinePhase, PipelineStatus, DesiredPhase, ResumeStrategy, Lifecycle, Limits,
  Condition, parse_phase, default_limits,
}
use nfctl.Model.Pods.{Labels, get_label, instance_label, pause_timestamp, resume_strategy_label}
use nfctl.K8s.Object.{
  Metadata, Object, Formats, Reason, bad_name, bad_namespace, bad_isb, vertex_name, edge_from,
  edge_to, no_partitions, kind_markers, unknown_operator, unknown_policy, unknown_desired,
  unknown_strategy, bad_topology, Invalid, invalid, annotations_of, nonempty, to_timestamp,
}
use nfctl.K8s.Dto.{
  ContainerDto, UdfDto, ScaleDto, VertexDto, TagsDto, ConditionsDto, EdgeDto, LifecycleDto,
  LimitsDto, PipelineSpecDto, ConditionDto, PipelineStatusDto,
}
use mathlib.Core.Option

abbrev pub kind_of_udf : {J : Type 0} → Option J → VertexKind
kind_of_udf none = VertexKind.map
kind_of_udf (some _) = reduce

-- `match (&d.source, &d.sink, &d.udf)`
unfoldable pub kind_of_markers :
    {J : Type 0}
    → VertexDto J
    → Option J
    → Option J
    → Option (UdfDto J)
    → Result Reason (VertexKind × Option String)
kind_of_markers d (some _) none none = ok (source, none)
kind_of_markers d none (some _) none = ok (sink, none)
kind_of_markers d none none (some u) =
    ok (kind_of_udf u.group_by, Option.bind u.container (λ c. c.image))
kind_of_markers d _ _ _ = err (kind_markers d.name)

-- Sources have one partition, whatever the field says.
abbrev pub partitions_of : VertexKind → Option ℕ → ℕ
partitions_of source n = 1
partitions_of sink n = or_else n 1
partitions_of VertexKind.map n = or_else n 1
partitions_of reduce n = or_else n 1

abbrev pub scale_of : Option ScaleDto → ScaleSpec
scale_of none = record { min = none; max = none; disabled = false }
scale_of (some s) = record { min = s.min; max = s.max; disabled = s.disabled }

-- `Vertex::try_from`
unfoldable pub vertex_of : {J : Type 0} → VertexDto J → Result Reason Vertex
vertex_of d = map_err (vertex_name d.name) (new_name max_label d.name) >>= λ name.
    if d.partitions == some 0
    then err (no_partitions d.name)
    else (kind_of_markers d d.source d.sink d.udf >>= λ k. ok (record {
      name = name;
      kind = k.0;
      partitions = partitions_of k.0 d.partitions;
      scale = scale_of d.scale;
      image = k.1;
    }))

pub operator_of : Option String → Result Reason TagOperator
operator_of none = ok TagOperator.or
operator_of (some s) =
    if s == "or"
    then ok TagOperator.or
    else if s == "and"
    then ok TagOperator.and
    else if s == "not"
    then ok TagOperator.not_
    else err (unknown_operator s)

unfoldable pub tags_of : Option TagsDto → Result Reason (Option TagCondition)
tags_of none = ok none
tags_of (some t) =
    operator_of t.operator >>= λ o. ok (some (record { operator = o; values = t.values }))

unfoldable pub policy_of : Option String → Result Reason OnFull
policy_of none = ok retry_until_success
policy_of (some s) =
    if s == "discardLatest"
    then ok discard_latest
    else if s == "retryUntilSuccess"
    then ok retry_until_success
    else err (unknown_policy s)

-- `Edge::try_from`
unfoldable pub edge_of : EdgeDto → Result Reason Edge
edge_of d = do
  from ← map_err (edge_from d.from) (new_name max_label d.from)
  to ← map_err (edge_to d.to) (new_name max_label d.to)
  conditions ← tags_of (Option.bind d.conditions (λ c. c.tags))
  on_full ← policy_of d.on_full
  ok (record { from = from; to = to; conditions = conditions; on_full = on_full })

unfoldable pub desired_of : Option String → Result Reason DesiredPhase
desired_of none = ok DesiredPhase.running
desired_of (some s) =
    if s == "Paused"
    then ok DesiredPhase.paused
    else if s == "Running"
    then ok DesiredPhase.running
    else err (unknown_desired s)

-- `Duration::from_secs`
abbrev pub from_secs : ℕ → Duration
from_secs n = n * 1000000000

-- `Option::or`
abbrev pub or_option : Option ℕ → Option ℕ → Option ℕ
or_option none b = b
or_option (some a) b = some a

unfoldable pub lifecycle_from : LifecycleDto → Result Reason Lifecycle
lifecycle_from lc = desired_of lc.desired_phase >>= λ desired. ok (record {
  desired = desired;
  pause_grace = from_secs (or_else lc.pause_grace_period_seconds 30);
  deletion_grace =
      from_secs
        (or_else (or_option lc.deletion_grace_period_seconds lc.delete_grace_period_seconds) 30);
})

pub limits_from : {F : Type 0} → Formats F → LimitsDto → Limits F
limits_from w l =
    let defaults = default_limits w.float w.decimals in
    record {
      read_batch_size = or_else l.read_batch_size defaults.read_batch_size;
      buffer_max_length = or_else l.buffer_max_length defaults.buffer_max_length;
      buffer_usage_limit =
          or_else
            (Option.bind l.buffer_usage_limit
              (λ p. from_percent w.float w.decimals (w.decimals.of_u32 p)))
            defaults.buffer_usage_limit;
    }

abbrev pub condition_of : ConditionDto → Condition
condition_of c = record {
  kind = c.kind;
  passed = c.status == "True";
  reason = c.reason;
  message = c.message;
}

abbrev pub phase_of : Option String → PipelinePhase
phase_of none = PipelinePhase.unknown
phase_of (some s) = parse_phase s

unfoldable pub status_from :
    {F : Type 0} → Formats F → PipelineStatusDto → Option Timestamp → PipelineStatus
status_from w st pause_started = record {
  phase = phase_of st.phase;
  message = nonempty st.message;
  conditions = map condition_of st.conditions;
  observed_generation = st.observed_generation;
  drained_on_pause = st.drained_on_pause;
  counts = record {
    total = or_else st.vertex_count 0;
    sources = or_else st.source_count 0;
    sinks = or_else st.sink_count 0;
    udfs = or_else st.udf_count 0;
    map_udfs = or_else st.map_udf_count 0;
    reduce_udfs = or_else st.reduce_udf_count 0;
  };
  pause_started = pause_started;
  last_updated = to_timestamp w.times st.last_updated;
}

abbrev pub no_status : PipelineStatusDto
no_status = record {
  phase = none;
  message = none;
  conditions = [];
  observed_generation = none;
  drained_on_pause = false;
  vertex_count = none;
  source_count = none;
  sink_count = none;
  udf_count = none;
  map_udf_count = none;
  reduce_udf_count = none;
  last_updated = none;
}

unfoldable pub strategy_of : Option String → Result Reason (Option ResumeStrategy)
strategy_of none = ok none
strategy_of (some s) =
    if s == "slow"
    then ok (some ResumeStrategy.slow)
    else if s == "fast"
    then ok (some ResumeStrategy.fast)
    else err (unknown_strategy s)

-- The chain of checks of `into_pipeline`, with the reason in place of the error.
unfoldable pub convert :
    {F J : Type 0}
    → Formats F
    → Object (PipelineSpecDto J) PipelineStatusDto
    → Result Reason (Pipeline F)
convert w o = do
  name ← map_err bad_name (new_name max_label (or_else o.metadata.name ""))
  namespace ← map_err bad_namespace (new_name max_label (or_else o.metadata.namespace ""))
  vertices ← traverse vertex_of o.spec.vertices
  edges ← traverse edge_of o.spec.edges
  topology ← map_err bad_topology (new vertices edges)
  isb ←
      map_err bad_isb (new_name max_label (or_else o.spec.inter_step_buffer_service_name "default"))
  resume ← strategy_of (get_label (annotations_of o.metadata) resume_strategy_label)
  lifecycle ← lifecycle_from o.spec.lifecycle
  ok (record {
    key = record { namespace = namespace; name = name };
    meta = record {
      generation = o.metadata.generation;
      created = to_timestamp w.times o.metadata.creation_timestamp;
      instance_ = get_label (annotations_of o.metadata) instance_label;
      resume_strategy = resume;
    };
    spec = record {
      isb = isb;
      lifecycle = lifecycle;
      limits = limits_from w o.spec.limits;
      topology = topology;
    };
    status =
        status_from w (or_else o.status no_status) (
          Option.bind (get_label (annotations_of o.metadata) pause_timestamp)
            w.times.parse_rfc3339);
  })

-- `into_pipeline`
unfoldable pub into_pipeline :
    {F J : Type 0}
    → Formats F
    → Object (PipelineSpecDto J) PipelineStatusDto
    → Result Invalid (Pipeline F)
into_pipeline w o = map_err (invalid "pipeline" (or_else o.metadata.name "")) (convert w o)
