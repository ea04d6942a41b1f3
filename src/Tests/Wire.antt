-- ===== src/Tests/Wire.antt =====
-- Objects of the API server (crates/nfctl-k8s/src/dto), with numbers for floats and `Unit` for JSON.
use nfctl.Common.{
  ℕ, true, [], ◌∷◌, none, some, ok, is_ok, traverse, find, contains, all, ◌≡◌, ◌↔◌, refl,
}
use mathlib.Core.Option
use nfctl.Common.Int.{pos}
use nfctl.Model.Ids.{new_name, check_dns_label, check_chars}
use nfctl.Model.Topology.{new, check_vertices, check_edges, check_ends_of, kind_of}
use nfctl.Model.Runtime.{Float}
use nfctl.Model.Pipeline.{Pipeline, PipelinePhase}
use nfctl.Model.Pods.{get_label, resume_strategy_label}
use nfctl.K8s.Object.{Formats, Object}
use nfctl.K8s.Dto.{PipelineSpecDto, PipelineStatusDto, VertexDto, EdgeDto}
use nfctl.K8s.Pipeline.{
  into_pipeline, convert, vertex_of, edge_of, kind_of_markers, tags_of, policy_of, desired_of,
  strategy_of, lifecycle_from, status_from,
}
use nfctl.K8s.Pipeline.Accepts.{Acceptable}
use nfctl.K8s.Pipeline.Convert.{Made, into_pipeline_iff, into_pipeline-Made}

abbrev pub floats : Float ℕ
floats = record { is_finite = λ _. true; in_unit = λ _. true; max = λ a b. a }

abbrev pub formats : Formats ℕ
formats = record {
  float = floats;
  decimals = record { of_u32 = λ n. n; div_hundred = λ n. n; zero = 0; eight_tenths = 80 };
  times = record { parse_rfc3339 = λ _. none; from_unix_nanos = λ _. some 7 };
}

abbrev wire_vertex : VertexDto (Unit {0})
wire_vertex = record {
  name = "in";
  source = some tt;
  sink = none;
  udf = none;
  partitions = some 4;
  scale = none;
}

abbrev wire_edge : EdgeDto
wire_edge = record { from = "in"; to = "out"; conditions = none; on_full = some "discardLatest" }

abbrev pub object : Object (PipelineSpecDto (Unit {0})) PipelineStatusDto
object = record {
  metadata = record {
    name = some "p";
    namespace = some "ns";
    annotations = some ((resume_strategy_label, "slow") ∷ []);
    generation = some (pos 2);
    creation_timestamp = some (pos 0);
  };
  spec = record {
    inter_step_buffer_service_name = none;
    vertices =
        wire_vertex ∷ record wire_vertex { name = "out"; source = none; sink = some tt } ∷ [];
    edges = wire_edge ∷ [];
    lifecycle = record {
      desired_phase = some "Running";
      pause_grace_period_seconds = none;
      deletion_grace_period_seconds = none;
      delete_grace_period_seconds = some 5;
    };
    limits = record {
      read_batch_size = none;
      buffer_max_length = none;
      buffer_usage_limit = some 60;
    };
  };
  status = none;
}

runs_new : Unit {0}
unfolding new_name check_dns_label check_chars all new check_vertices check_edges check_ends_of
runs_new = tt

runs_parts : Unit {0}
unfolding traverse vertex_of edge_of kind_of_markers tags_of policy_of desired_of strategy_of
runs_parts = tt

runs : Unit {0}
unfolding runs_new runs_parts into_pipeline convert lifecycle_from kind_of find contains get_label
    Option.bind
runs = tt

pub read : (p : Pipeline ℕ) × (into_pipeline formats object ≡ ok p)
unfolding runs
read = (_, refl)

-- Without a status the phase is not known.
pub read_phase : read.0.status.phase ≡ PipelinePhase.unknown
unfolding read status_from
read_phase = refl

into_pipeline_iff_example : (is_ok (into_pipeline formats object) ≡ true) ↔ Acceptable object
into_pipeline_iff_example = into_pipeline_iff formats object

into_pipeline-Made_example : Made object read.0
into_pipeline-Made_example = into_pipeline-Made formats object read.0 read.1
