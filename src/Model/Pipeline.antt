-- ===== src/Model/Pipeline.antt =====
-- crates/nfctl-core/src/model/pipeline.rs. `F` stands for `f64`.
use nfctl.Common.{
  ℕ, ◌+◌, String, Bool, true, false, List, Option, ◌≡◌, ◌↔◌, refl, PartialEq, ◌==◌, string_eq,
  if◌then◌else◌, length, or_else, leb, arith,
}
use nfctl.Common.Int.{ℤ}
use nfctl.Model.Ids.{IsbName, PipelineKey}
use nfctl.Model.Time.{Timestamp, Duration, elapsed_until}
use nfctl.Model.Topology.{Topology, VertexKind, source, sink, count}
use nfctl.Model.Runtime.{Fraction, Float, Decimals, new_fraction}
use mathlib.Core.Option

pub data DesiredPhase : Type 0 where
  running paused : DesiredPhase

pub data PipelinePhase : Type 0 where
  unknown running paused failed pausing deleting : PipelinePhase

abbrev pub pipeline_phase_same : PipelinePhase → PipelinePhase → Bool
pipeline_phase_same PipelinePhase.unknown PipelinePhase.unknown = true
pipeline_phase_same PipelinePhase.running PipelinePhase.running = true
pipeline_phase_same PipelinePhase.paused PipelinePhase.paused = true
pipeline_phase_same PipelinePhase.failed PipelinePhase.failed = true
pipeline_phase_same PipelinePhase.pausing PipelinePhase.pausing = true
pipeline_phase_same PipelinePhase.deleting PipelinePhase.deleting = true
pipeline_phase_same _ _ = false

pub pipeline_phase_same_law : (a b : PipelinePhase) → (pipeline_phase_same a b ≡ true) ↔ (a ≡ b)
pipeline_phase_same_law a b = ground arith

instance abbrev pub pipeline_phase_eq : PartialEq PipelinePhase
pipeline_phase_eq = record { same = pipeline_phase_same; eq_law = pipeline_phase_same_law }

-- `PipelinePhase::parse_lenient`
pub parse_phase : String → PipelinePhase
parse_phase s =
    if s == "Running"
    then PipelinePhase.running
    else if s == "Paused"
    then PipelinePhase.paused
    else if s == "Failed"
    then PipelinePhase.failed
    else if s == "Pausing"
    then PipelinePhase.pausing
    else if s == "Deleting"
    then PipelinePhase.deleting
    else PipelinePhase.unknown

-- `PipelinePhase::as_str`
pub phase_str : PipelinePhase → String
phase_str PipelinePhase.unknown = "Unknown"
phase_str PipelinePhase.running = "Running"
phase_str PipelinePhase.paused = "Paused"
phase_str PipelinePhase.failed = "Failed"
phase_str PipelinePhase.pausing = "Pausing"
phase_str PipelinePhase.deleting = "Deleting"

-- `parse_lenient` reads back what `as_str` writes.
parse_phase-phase_str : (p : PipelinePhase) → parse_phase (phase_str p) ≡ p
unfolding parse_phase phase_str
parse_phase-phase_str PipelinePhase.unknown = refl
parse_phase-phase_str PipelinePhase.running = refl
parse_phase-phase_str PipelinePhase.paused = refl
parse_phase-phase_str PipelinePhase.failed = refl
parse_phase-phase_str PipelinePhase.pausing = refl
parse_phase-phase_str PipelinePhase.deleting = refl

pub data ResumeStrategy : Type 0 where
  fast slow : ResumeStrategy

-- `DesiredPhase::as_str`
abbrev pub desired_str : DesiredPhase → String
desired_str DesiredPhase.running = "Running"
desired_str DesiredPhase.paused = "Paused"

-- `ResumeStrategy::as_str`
abbrev pub strategy_str : ResumeStrategy → String
strategy_str fast = "fast"
strategy_str slow = "slow"

pub record Lifecycle : Type 0 where
  pub desired : DesiredPhase
  pub pause_grace : Duration
  pub deletion_grace : Duration

-- `Lifecycle::default`; `Duration::from_secs` counts in nanoseconds.
abbrev pub default_lifecycle : Lifecycle
default_lifecycle = record {
  desired = DesiredPhase.running;
  pause_grace = 30000000000;
  deletion_grace = 30000000000;
}

pub record Limits (F : Type 0) : Type 0 where
  pub read_batch_size : ℕ
  pub buffer_max_length : ℕ
  pub buffer_usage_limit : Fraction F

-- `Limits::default`
pub default_limits : {F : Type 0} → Float F → Decimals F → Limits F
default_limits f d = record {
  read_batch_size = 500;
  buffer_max_length = 30000;
  buffer_usage_limit = or_else (new_fraction f d.eight_tenths) (record { get = d.zero });
}

pub record PipelineSpec (F : Type 0) : Type 0 where
  pub isb : IsbName
  pub lifecycle : Lifecycle
  pub limits : Limits F
  pub topology : Topology

pub record Condition : Type 0 where
  pub kind : String
  pub passed : Bool
  pub reason : Option String
  pub message : Option String

pub record VertexCounts : Type 0 where
  pub total : ℕ
  pub sources : ℕ
  pub sinks : ℕ
  pub udfs : ℕ
  pub map_udfs : ℕ
  pub reduce_udfs : ℕ

abbrev pub u32_max : ℕ
u32_max = 4294967295

-- `u32::try_from(n).unwrap_or(u32::MAX)`
abbrev pub saturate : ℕ → ℕ
saturate n = if leb n u32_max then n else u32_max

-- `VertexCounts::from_topology`. The sum `map + reduce` is within `u32` unless there are 2 ^ 32
-- vertices.
unfoldable pub from_topology : Topology → VertexCounts
from_topology t =
    let map = saturate (count t VertexKind.map) in
    let reduce = saturate (count t VertexKind.reduce) in
    record {
      total = saturate (length t.vertices);
      sources = saturate (count t source);
      sinks = saturate (count t sink);
      udfs = map + reduce;
      map_udfs = map;
      reduce_udfs = reduce;
    }

pub record PipelineStatus : Type 0 where
  pub phase : PipelinePhase
  pub message : Option String
  pub conditions : List Condition
  pub observed_generation : Option ℤ
  pub drained_on_pause : Bool
  pub counts : VertexCounts
  pub pause_started : Option Timestamp
  pub last_updated : Option Timestamp

pub record ObjectMeta : Type 0 where
  pub generation : Option ℤ
  pub created : Option Timestamp
  pub instance_ : Option String
  pub resume_strategy : Option ResumeStrategy

pub record Pipeline (F : Type 0) : Type 0 where
  pub key : PipelineKey
  pub meta : ObjectMeta
  pub spec : PipelineSpec F
  pub status : PipelineStatus

-- `Pipeline::age`
unfoldable pub age : {F : Type 0} → Pipeline F → Timestamp → Option Duration
age p now = Option.bind p.meta.created (λ t. elapsed_until t now)
