-- ===== src/Daemon/Ends.antt =====
-- `ends_for` (crates/nfctl-daemon/src/client.rs): the edges that a buffer is on, by its name.
pub mod Owner
use Prim.Native.Nat.{zero, suc}
use mathlib.Core.Option
use nfctl.Common.{
  ℕ, ◌+◌, ◌-◌, String, Bool, true, false, List, [], ◌∷◌, ◌++◌, Option, none, some, ◌==◌, string_eq,
  or_else, map, keep, is_empty, length, ltb, if◌then◌else◌, Result, ok, err, ◌>>=◌, ◌>>◌, map_err,
  traverse, ok_or,
}
use nfctl.Common.Text.{ends_with, rsplit_once}
use nfctl.Model.Ids.{chars, VertexName, BufferName, PipelineKey, join}
use nfctl.Model.Time.{Duration, Timestamp}
use nfctl.Model.Topology.{Topology, Vertex, Edge}
use nfctl.Model.Runtime.{BufferInfo, VertexMetrics, EdgeWatermark, PipelineHealth, ReplicaErrors}
use nfctl.Daemon.Dto.{
  Reading, BufferInfoDto, VertexMetricsDto, MonoVertexMetricsInnerDto, EdgeWatermarkDto, StatusDto,
  ReplicaErrorsDto, Malformed, buffer_from, metrics_from, watermark_from, health_from, errors_from,
}

abbrev pub unknown_vertex : VertexName
unknown_vertex = "unknown"

-- The part of a buffer's name before the last dash.
unfoldable pub stem : String → List ℕ
stem buffer = or_else (Option.map (λ p. p.0) (rsplit_once b'-' (chars buffer))) (chars buffer)

-- `max_by_key(|v| v.as_str().len())`: the last of the longest. A name is ASCII, so that its length in
-- bytes is the number of its characters.
abbrev pub longer : VertexName → Option VertexName → Option VertexName
longer x none = some x
longer x (some y) = if ltb (length (chars y)) (length (chars x)) then some x else some y

unfoldable pub longest : List VertexName → Option VertexName
longest [] = none
longest (x ∷ xs) = longer x (longest xs)

-- The vertex that owns a buffer of that stem.
unfoldable pub owner : Topology → List ℕ → Option VertexName
owner t s = longest (keep (λ v. ends_with s (chars v)) (map (λ v. v.name) t.vertices))

-- The vertices with an edge into that one, in the order of the edges.
unfoldable pub sources_of : Topology → VertexName → List VertexName
sources_of t to = map (λ e. e.from) (keep (λ e. e.to == to) t.edges)

unfoldable pub ends_of : Topology → Option VertexName → List VertexName × VertexName
ends_of t none = (unknown_vertex ∷ [], unknown_vertex)
ends_of t (some to) =
    let sources = sources_of t to in (if is_empty sources then unknown_vertex ∷ [] else sources, to)

-- `ends_for`
unfoldable pub ends_for : Option Topology → String → List VertexName × VertexName
ends_for none buffer = (unknown_vertex ∷ [], unknown_vertex)
ends_for (some t) buffer = ends_of t (owner t (stem buffer))
