-- ===== src/K8s/MonoVertex.antt =====
-- crates/nfctl-k8s/src/dto/monovertex.rs. `J` stands for a JSON document.
use nfctl.Common.{
  ℕ, String, List, [], Option, none, some, or_else, is_some, map, Result, ok, ◌>>=◌, map_err,
}
use nfctl.Model.Ids.{new_name, max_label}
use nfctl.Model.MonoVertex.{MonoVertex, MonoVertexPhase, parse_monovertex_phase}
use nfctl.K8s.Object.{
  Object, Formats, Reason, bad_name, bad_namespace, Invalid, invalid, nonempty, to_timestamp,
}
use nfctl.K8s.Dto.{ConditionDto}
use nfctl.K8s.Pipeline.{desired_of, condition_of}
use mathlib.Core.Option

pub record SourceDto (J : Type 0) : Type 0 where
  pub transformer : Option J

pub record SinkDto (J : Type 0) : Type 0 where
  pub fallback : Option J

pub record LifecycleDto : Type 0 where
  pub desired_phase : Option String

pub record MonoVertexSpecDto (J : Type 0) : Type 0 where
  pub replicas : Option ℕ
  pub source : Option (SourceDto J)
  pub udf : Option J
  pub sink : Option (SinkDto J)
  pub lifecycle : LifecycleDto

pub record MonoVertexStatusDto : Type 0 where
  pub phase : Option String
  pub message : Option String
  pub replicas : Option ℕ
  pub desired_replicas : Option ℕ
  pub ready_replicas : Option ℕ
  pub conditions : List ConditionDto

abbrev no_status : MonoVertexStatusDto
no_status = record {
  phase = none;
  message = none;
  replicas = none;
  desired_replicas = none;
  ready_replicas = none;
  conditions = [];
}

abbrev phase_of : Option String → MonoVertexPhase
phase_of none = MonoVertexPhase.unknown
phase_of (some s) = parse_monovertex_phase s

unfoldable pub convert :
    {F J : Type 0}
    → Formats F
    → Object (MonoVertexSpecDto J) MonoVertexStatusDto
    → Result Reason MonoVertex
convert w o = do
  name ← map_err bad_name (new_name max_label (or_else o.metadata.name ""))
  namespace ← map_err bad_namespace (new_name max_label (or_else o.metadata.namespace ""))
  let st = or_else o.status no_status
  desired ← desired_of o.spec.lifecycle.desired_phase
  ok (record {
    key = record { namespace = namespace; name = name };
    desired = desired;
    phase = phase_of st.phase;
    replicas = or_else st.replicas 0;
    desired_replicas = st.desired_replicas;
    ready_replicas = st.ready_replicas;
    has_transformer = is_some (Option.bind o.spec.source (λ s. s.transformer));
    has_map = is_some o.spec.udf;
    has_fallback = is_some (Option.bind o.spec.sink (λ s. s.fallback));
    message = nonempty st.message;
    conditions = map condition_of st.conditions;
    created = to_timestamp w.times o.metadata.creation_timestamp;
  })

-- `into_monovertex`
pub into_monovertex :
    {F J : Type 0}
    → Formats F
    → Object (MonoVertexSpecDto J) MonoVertexStatusDto
    → Result Invalid MonoVertex
into_monovertex w o = map_err (invalid "monovertex" (or_else o.metadata.name "")) (convert w o)
