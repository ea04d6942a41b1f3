-- ===== src/Daemon/Client.antt =====
-- crates/nfctl-daemon/src/client.rs: the loop of retries. What is sent and received is a
-- parameter: a call is the function that gives its n-th answer. `F` stands for `f64`.
pub mod Retries
use Prim.Native.Nat.{zero, suc}
use mathlib.Core.Option
use nfctl.Common.{
  ℕ, ◌+◌, ◌-◌, String, Bool, true, false, List, [], ◌∷◌, ◌++◌, Option, none, some, ◌==◌, string_eq,
  or_else, map, keep, is_empty, length, ltb, if◌then◌else◌, Result, ok, err, ◌>>=◌, ◌>>◌, map_err,
  traverse, ok_or,
}
use nfctl.Common.Text.{ends_with, rsplit_once}
use nfctl.Model.Ids.{chars, VertexName, BufferName, PipelineKey, join}
use nfctl.Model.Time.{Duration, Timestamp}
use nfctl.Model.Topology.{Topology, Vertex, Edge}
use nfctl.Model.Runtime.{BufferInfo, VertexMetrics, EdgeWatermark, PipelineHealth, ReplicaErrors}
use nfctl.Daemon.Dto.{
  Reading, BufferInfoDto, VertexMetricsDto, MonoVertexMetricsInnerDto, EdgeWatermarkDto, StatusDto,
  ReplicaErrorsDto, Malformed, buffer_from, metrics_from, watermark_from, health_from, errors_from,
}

-- A text that the code formats is left to the constructor.
pub data CallError : Type 0 where
  transport : String → CallError
  timeout : Duration → CallError
  http : (status : ℕ) (message : String) → CallError
  body_too_large : (limit : ℕ) → CallError
  decode : String → CallError

pub retryable : CallError → Bool
retryable (transport _) = true
retryable (timeout _) = true
retryable (http _ _) = false
retryable (body_too_large _) = false
retryable (decode _) = false

pub data Flavour : Type 0 where
  pipeline mono_vertex : Flavour

-- The errors of the port: `Error::Daemon` by its source, and `Error::NotFound`.
pub data ClientError : Type 0 where
  call : CallError → ClientError
  malformed : Malformed → ClientError
  no_buffers : (what : String) → ClientError
  needs_topology : ClientError
  not_found : (kind name : String) → ClientError

-- What the loop of `get_json` does with an answer: `left` retries are left, and `again` goes on.
unfoldable pub settle {ℓ} :
    {A : Type ℓ}
    → (attempt : ℕ) → Option (Result CallError A × ℕ)
    → Result CallError A
    → Result CallError A × ℕ
settle attempt again (ok a) = (ok a, suc attempt)
settle attempt none (err e) = (err e, suc attempt)
settle attempt (some rest) (err e) = if retryable e then rest else (err e, suc attempt)

-- The loop of `get_json` from an attempt on, with the retries that are left: the result, and how
-- many calls were made.
unfoldable pub get_from {ℓ} :
    {A : Type ℓ} → (ℕ → Result CallError A) → (left attempt : ℕ) → Result CallError A × ℕ
get_from once zero attempt = settle attempt none (once attempt)
get_from once (suc left) attempt =
    settle attempt (some (get_from once left (suc attempt))) (once attempt)

-- `get_json`, the calls left aside.
unfoldable pub get_json {ℓ} :
    {A : Type ℓ} → (retries : ℕ) → (ℕ → Result CallError A) → Result ClientError A
get_json retries once = map_err call (get_from once retries 0).0

pub not_for_monovertex : Flavour → String → Result ClientError (Unit {0})
not_for_monovertex pipeline what = ok tt
not_for_monovertex mono_vertex what = err (no_buffers what)

-- `path`
pub path : Flavour → PipelineKey → String → String
path pipeline key rest = join "/api/v1/pipelines/" (join key.name (join "/" rest))
path mono_vertex key rest = join "/api/v1/" rest
