-- ===== src/Model/Workload.antt =====
-- crates/nfctl-core/src/model/workload.rs: what pipelines and MonoVertices share.
use nfctl.Common.{
  ℕ, String, Bool, true, false, Option, none, some, ◌≡◌, ◌↔◌, PartialEq, ◌==◌, arith, if◌then◌else◌,
  Bool-cases, inl, inr, eq_of_beq, ne_of_beq, ap,
}
use mathlib.Core.Option
use nfctl.Model.Ids.{Namespace, PipelineName, PipelineKey, IsbName}
use nfctl.Model.Time.{Timestamp, Duration, elapsed_until}
use nfctl.Model.Pipeline.{Pipeline, PipelinePhase, DesiredPhase, VertexCounts, age as pipeline_age}
use nfctl.Model.MonoVertex.{MonoVertex, MonoVertexKey, MonoVertexPhase}

pub data WorkloadKind : Type 0 where
  pipeline monovertex : WorkloadKind

-- `WorkloadKind::as_str`
abbrev pub kind_str : WorkloadKind → String
kind_str pipeline = "Pipeline"
kind_str monovertex = "MonoVertex"

abbrev pub workload_kind_same : WorkloadKind → WorkloadKind → Bool
workload_kind_same pipeline pipeline = true
workload_kind_same monovertex monovertex = true
workload_kind_same _ _ = false

pub workload_kind_same_law : (a b : WorkloadKind) → (workload_kind_same a b ≡ true) ↔ (a ≡ b)
workload_kind_same_law a b = ground arith

instance abbrev pub workload_kind_eq : PartialEq WorkloadKind
workload_kind_eq = record { same = workload_kind_same; eq_law = workload_kind_same_law }

pub record WorkloadKey : Type 0 where
  pub kind : WorkloadKind
  pub namespace : Namespace
  pub name : PipelineName

pub as_pipeline : WorkloadKey → Option PipelineKey
as_pipeline k =
    if k.kind == pipeline then some (record { namespace = k.namespace; name = k.name }) else none

pub as_monovertex : WorkloadKey → Option MonoVertexKey
as_monovertex k =
    if k.kind == monovertex then some (record { namespace = k.namespace; name = k.name }) else none

unfoldable pub of_pipeline_key : PipelineKey → WorkloadKey
of_pipeline_key k = record { kind = pipeline; namespace = k.namespace; name = k.name }

pub of_monovertex_key : MonoVertexKey → WorkloadKey
of_monovertex_key k = record { kind = monovertex; namespace = k.namespace; name = k.name }

pub data WorkloadPhase : Type 0 where
  unknown running paused failed pausing deleting : WorkloadPhase

-- `WorkloadPhase::as_str`
abbrev pub workload_phase_str : WorkloadPhase → String
workload_phase_str WorkloadPhase.unknown = "Unknown"
workload_phase_str WorkloadPhase.running = "Running"
workload_phase_str WorkloadPhase.paused = "Paused"
workload_phase_str WorkloadPhase.failed = "Failed"
workload_phase_str WorkloadPhase.pausing = "Pausing"
workload_phase_str WorkloadPhase.deleting = "Deleting"

unfoldable pub of_pipeline_phase : PipelinePhase → WorkloadPhase
of_pipeline_phase PipelinePhase.unknown = WorkloadPhase.unknown
of_pipeline_phase PipelinePhase.running = WorkloadPhase.running
of_pipeline_phase PipelinePhase.paused = WorkloadPhase.paused
of_pipeline_phase PipelinePhase.failed = WorkloadPhase.failed
of_pipeline_phase PipelinePhase.pausing = WorkloadPhase.pausing
of_pipeline_phase PipelinePhase.deleting = WorkloadPhase.deleting

unfoldable pub of_monovertex_phase : MonoVertexPhase → WorkloadPhase
of_monovertex_phase MonoVertexPhase.unknown = WorkloadPhase.unknown
of_monovertex_phase MonoVertexPhase.running = WorkloadPhase.running
of_monovertex_phase MonoVertexPhase.paused = WorkloadPhase.paused
of_monovertex_phase MonoVertexPhase.failed = WorkloadPhase.failed

pub data Workload (F : Type 0) : Type 0 where
  of_pipeline : Pipeline F → Workload F
  of_monovertex : MonoVertex → Workload F

module _ {F : Type 0} where
  unfoldable pub kind : Workload F → WorkloadKind
  kind (of_pipeline _) = pipeline
  kind (of_monovertex _) = monovertex

  unfoldable pub key : Workload F → WorkloadKey
  key (of_pipeline p) = of_pipeline_key p.key
  key (of_monovertex m) = of_monovertex_key m.key

  unfoldable pub namespace : Workload F → Namespace
  namespace (of_pipeline p) = p.key.namespace
  namespace (of_monovertex m) = m.key.namespace

  unfoldable pub name : Workload F → PipelineName
  name (of_pipeline p) = p.key.name
  name (of_monovertex m) = m.key.name

  unfoldable pub phase : Workload F → WorkloadPhase
  phase (of_pipeline p) = of_pipeline_phase p.status.phase
  phase (of_monovertex m) = of_monovertex_phase m.phase

  unfoldable pub desired : Workload F → DesiredPhase
  desired (of_pipeline p) = p.spec.lifecycle.desired
  desired (of_monovertex m) = m.desired

  unfoldable pub vertices : Workload F → ℕ
  vertices (of_pipeline p) = p.status.counts.total
  vertices (of_monovertex _) = 1

  unfoldable pub counts : Workload F → Option VertexCounts
  counts (of_pipeline p) = some p.status.counts
  counts (of_monovertex _) = none

  unfoldable pub replicas : Workload F → Option (ℕ × Option ℕ)
  replicas (of_pipeline _) = none
  replicas (of_monovertex m) = some (m.replicas, m.ready_replicas)

  unfoldable pub isb : Workload F → Option IsbName
  isb (of_pipeline p) = some p.spec.isb
  isb (of_monovertex _) = none

  unfoldable pub message : Workload F → Option String
  message (of_pipeline p) = p.status.message
  message (of_monovertex m) = m.message

  unfoldable pub age : Workload F → Timestamp → Option Duration
  age (of_pipeline p) now = pipeline_age p now
  age (of_monovertex m) now = Option.bind m.created (λ t. elapsed_until t now)

-- A workload's key is a pipeline's key exactly if it is made from it, and a MonoVertex's likewise.
as_pipeline_iff :
    (k : WorkloadKey) (p : PipelineKey) (m : MonoVertexKey)
    → ((as_pipeline k ≡ some p) ↔ (k ≡ of_pipeline_key p))
      × ((as_monovertex k ≡ some m) ↔ (k ≡ of_monovertex_key m))
unfolding as_pipeline as_monovertex of_pipeline_key of_monovertex_key
as_pipeline_iff k p m = (
  elim (Bool-cases (k.kind == pipeline)) [
    | inl t ↦ let e = eq_of_beq k.kind pipeline t in rw (t, as_pipeline) (λ h. cc (e, h), λ h. cc h)
    | inr f ↦
        rw (f, as_pipeline)
          (λ h. cc, λ h. absurd (ne_of_beq k.kind pipeline f (ap (λ x. x.kind) h)))
  ],
  elim (Bool-cases (k.kind == monovertex)) [
    | inl t ↦
        let e = eq_of_beq k.kind monovertex t in rw (t, as_monovertex) (λ h. cc (e, h), λ h. cc h)
    | inr f ↦
        rw (f, as_monovertex)
          (λ h. cc, λ h. absurd (ne_of_beq k.kind monovertex f (ap (λ x. x.kind) h)))
  ],
)
