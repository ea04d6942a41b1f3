-- ===== src/Daemon/Calls.antt =====
-- The port that crates/nfctl-daemon/src/client.rs implements. The server is the function from a path
-- and the number of a call to the answer. `F` stands for `f64`.
pub mod Window
use Prim.Native.Nat.{zero, suc}
use mathlib.Core.Option
use nfctl.Common.{
  ℕ, ◌+◌, ◌-◌, String, Bool, true, false, List, [], ◌∷◌, ◌++◌, Option, none, some, ◌==◌, string_eq,
  or_else, map, keep, is_empty, length, ltb, if◌then◌else◌, Result, ok, err, ◌>>=◌, ◌>>◌, map_err,
  traverse, ok_or,
}
use nfctl.Common.Text.{ends_with, rsplit_once}
use nfctl.Model.Ids.{chars, VertexName, BufferName, PipelineKey, join}
use nfctl.Model.Time.{Duration, Timestamp}
use nfctl.Model.Topology.{Topology, Vertex, Edge}
use nfctl.Model.Runtime.{BufferInfo, VertexMetrics, EdgeWatermark, PipelineHealth, ReplicaErrors}
use nfctl.Daemon.Client.{
  CallError, Flavour, pipeline, mono_vertex, ClientError, malformed, needs_topology, not_found,
  get_json, not_for_monovertex, path,
}
use nfctl.Daemon.Ends.{ends_for}
use nfctl.Daemon.Dto.{
  Reading, BufferInfoDto, VertexMetricsDto, MonoVertexMetricsInnerDto, EdgeWatermarkDto, StatusDto,
  ReplicaErrorsDto, Malformed, buffer_from, metrics_from, watermark_from, health_from, errors_from,
}

-- What the client holds, and what the server answers to each path; the retries are those of the
-- options.
pub record Client (F : Type 0) : Type 0 where
  pub flavour : Flavour
  pub key : PipelineKey
  pub topology : Option Topology
  pub retries : ℕ
  pub metrics_ttl : Duration
  pub reading : Reading F

-- The last answer for the whole pipeline, with when it was given.
abbrev pub Recent : Type 0 → Type 0
Recent F = Option (Timestamp × List (VertexMetrics F))

module _ {F : Type 0} (c : Client F) where
  pub buffer_of : BufferInfoDto F → Result ClientError (BufferInfo F)
  buffer_of b =
      let ends = ends_for c.topology b.buffer_name in
      map_err malformed (buffer_from c.reading b ends.0 ends.1)

  -- `buffers`
  pub buffers :
      (String → ℕ → Result CallError (List (BufferInfoDto F)))
      → Result ClientError (List (BufferInfo F))
  buffers server = do
    not_for_monovertex c.flavour "buffers"
    d ← get_json c.retries (server (path c.flavour c.key "buffers"))
    traverse buffer_of d

  -- `buffer`
  pub buffer :
      (String → ℕ → Result CallError (Option (BufferInfoDto F)))
      → BufferName
      → Result ClientError (BufferInfo F)
  buffer server name = do
    not_for_monovertex c.flavour "buffer"
    d ← get_json c.retries (server (path c.flavour c.key (join "buffers/" name)))
    b ← ok_or d (not_found "buffer" name)
    buffer_of b

  -- `recent_metrics`
  unfoldable pub recent_metrics : Timestamp → Recent F → Option (List (VertexMetrics F))
  recent_metrics now none = none
  recent_metrics now (some (at, got)) = if ltb (now - at) c.metrics_ttl then some got else none

  abbrev no_metrics : MonoVertexMetricsInnerDto F
  no_metrics = record { mono_vertex = ""; processing_rates = []; pendings = [] }

  abbrev named_metrics : MonoVertexMetricsInnerDto F → VertexMetricsDto F
  named_metrics m = record {
    vertex = if m.mono_vertex == "" then c.key.name else m.mono_vertex;
    processing_rates = m.processing_rates;
    pendings = m.pendings;
  }

  -- `vertex_metrics` of a MonoVertex.
  pub monovertex_metrics :
      (String → ℕ → Result CallError (Option (MonoVertexMetricsInnerDto F)))
      → Result ClientError (List (VertexMetrics F))
  monovertex_metrics server = do
    d ← get_json c.retries (server (path c.flavour c.key "metrics"))
    m ← map_err malformed (metrics_from c.reading (named_metrics (or_else d no_metrics)))
    ok (m ∷ [])

  unfoldable pub names_of :
      Option VertexName → Option Topology → Result ClientError (List VertexName)
  names_of (some v) t = ok (v ∷ [])
  names_of none (some t) = ok (map (λ v. v.name) t.vertices)
  names_of none none = err needs_topology

  -- The loop over the vertices, one call for each.
  unfoldable pub ask_each :
      (String → ℕ → Result CallError (List (VertexMetricsDto F)))
      → List VertexName
      → Result ClientError (List (VertexMetrics F))
  ask_each server [] = ok []
  ask_each server (v ∷ vs) = do
    d ← get_json c.retries (server (path c.flavour c.key (join "vertices/" (join v "/metrics"))))
    ms ← traverse (λ m. map_err malformed (metrics_from c.reading m)) d
    rest ← ask_each server vs
    ok (ms ++ rest)

  -- `remember_metrics`, where the whole pipeline was asked for and the answer came at `done`.
  unfoldable pub remember :
      Timestamp
      → Option VertexName
      → Recent F
      → Result ClientError (List (VertexMetrics F))
      → Result ClientError (List (VertexMetrics F)) × Recent F
  remember done none recent (ok got) = (ok got, some (done, got))
  remember done (some v) recent (ok got) = (ok got, recent)
  remember done vertex recent (err e) = (err e, recent)

  -- The window that a question for the whole pipeline may be answered from.
  unfoldable pub held : Timestamp → Option VertexName → Recent F → Option (List (VertexMetrics F))
  held now none recent = recent_metrics now recent
  held now (some v) recent = none

  -- The early return of the answer that is held.
  abbrev or_asked :
      Recent F
      → Result ClientError (List (VertexMetrics F)) × Recent F
      → Option (List (VertexMetrics F))
      → Result ClientError (List (VertexMetrics F)) × Recent F
  or_asked recent asked none = asked
  or_asked recent asked (some got) = (ok got, recent)

  abbrev from_names :
      (String → ℕ → Result CallError (List (VertexMetricsDto F)))
      → (now done : Timestamp) → Option VertexName
      → Recent F
      → Result ClientError (List VertexName)
      → Result ClientError (List (VertexMetrics F)) × Recent F
  from_names server now done vertex recent (err e) = (err e, recent)
  from_names server now done vertex recent (ok names) =
      or_asked recent (remember done vertex recent (ask_each server names)) (held now vertex recent)

  -- `vertex_metrics` of a pipeline, asked at `now` and answered at `done`.
  unfoldable pub vertex_metrics :
      (String → ℕ → Result CallError (List (VertexMetricsDto F)))
      → (now done : Timestamp) → Option VertexName
      → Recent F
      → Result ClientError (List (VertexMetrics F)) × Recent F
  vertex_metrics server now done vertex recent =
      from_names server now done vertex recent (names_of vertex c.topology)

  -- `watermarks`
  pub watermarks :
      (String → ℕ → Result CallError (List EdgeWatermarkDto))
      → Result ClientError (List EdgeWatermark)
  watermarks server = do
    not_for_monovertex c.flavour "watermarks"
    d ← get_json c.retries (server (path c.flavour c.key "watermarks"))
    traverse (λ w. map_err malformed (watermark_from c.reading w)) d

  -- `health`
  pub health :
      (String → ℕ → Result CallError (Option StatusDto)) → Result ClientError PipelineHealth
  health server = do
    d ← get_json c.retries (server (path c.flavour c.key "status"))
    ok (health_from (or_else d (record { status = ""; message = ""; code = "" })))

  abbrev errors_path : VertexName → Flavour → String
  errors_path v pipeline = join "vertices/" (join v "/errors")
  errors_path v mono_vertex = join "mono-vertices/" (join v "/errors")

  -- `vertex_errors`
  pub vertex_errors :
      (String → ℕ → Result CallError (List ReplicaErrorsDto))
      → VertexName
      → Result ClientError (List ReplicaErrors)
  vertex_errors server v = do
    d ← get_json c.retries (server (path c.flavour c.key (errors_path v c.flavour)))
    ok (map (errors_from c.reading) d)
