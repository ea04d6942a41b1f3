-- ===== src/K8s/Cluster.antt =====
-- crates/nfctl-k8s/src/cluster.rs: the port over the API of Kubernetes. The API is a record of the
-- requests that the code makes, on the state `W` behind it; a watch is the list of what it will yield.
pub mod Calls
use Prim.Native.String.{String}
use nfctl.Common.{
  ℕ, Bool, true, false, not, List, [], ◌∷◌, ◌++◌, Option, none, some, ◌==◌, string_eq, nat_eq,
  Result, ok, err, or_else, map_err, map, traverse, is_some, if◌then◌else◌,
}
use mathlib.Core.Option
use nfctl.Error.{Error, not_found, forbidden, cluster}
use nfctl.Ports.{ClusterPort, Io, give, fail, lift, go_on, ◌>>=◌}
use nfctl.Model.Ids.{
  Namespace, PipelineKey, VertexName, PodName, ContainerName, InvalidName, new_name, max_label,
  join, key_str,
}
use nfctl.Model.Time.{TimeFormats}
use nfctl.Model.Pipeline.{Pipeline, DesiredPhase, ResumeStrategy, desired_str, strategy_str}
use nfctl.Model.MonoVertex.{MonoVertex, MonoVertexKey, monovertex_key_str}
use nfctl.Model.Isb.{IsbService}
use nfctl.Model.Pods.{
  Labels, PodRef, PodEvent, applied, deleted, resync, resync_done, LogOptions, LogLine,
  resume_strategy_label,
}
use nfctl.Graph.Shards.{decimal}
use nfctl.Graph.Scan.{split_once}
use nfctl.K8s.Object.{Metadata, Object, Formats, Reason, Invalid}
use nfctl.K8s.Dto.{PipelineSpecDto, PipelineStatusDto}
use nfctl.K8s.MonoVertex.{MonoVertexSpecDto, MonoVertexStatusDto, into_monovertex}
use nfctl.K8s.Isb.{IsbSpecDto, IsbStatusDto, into_isb}
use nfctl.K8s.Pods.{Pod, into_pod_ref}
use nfctl.K8s.Pipeline.{into_pipeline}

-- `kube::Error`: what the server answered, or another failure by its text.
pub data KubeError : Type 0 where
  api : (code : ℕ) (message : String) → KubeError
  other : String → KubeError

-- `map_kube`
unfoldable pub map_kube : String → String → KubeError → Error
map_kube kind name (other text) = cluster text
map_kube kind name (api code message) =
    if code == 404
    then not_found kind name
    else if code == 403
    then forbidden message
    else cluster (join message (join " (HTTP " (join (decimal code) ")")))

-- `watcher::Event`
pub data Event (A : Type 0) : Type 0 where
  apply init_apply delete : A → Event A
  init init_done : Event A

-- The bodies of the patches that are sent: the fields that a merge sets, or a whole document. A merge
-- may set the annotation of a resume strategy, and clear the replicas.
pub data Patch (J : Type 0) : Type 0 where
  lifecycle :
      (desired : String) (annotation : Option (String × String)) (clear_replicas : Bool) → Patch J
  document : J → Patch J

abbrev pub PipelineObject : Type 0 → Type 0
PipelineObject J = Object (PipelineSpecDto J) PipelineStatusDto

abbrev pub MonoVertexObject : Type 0 → Type 0
MonoVertexObject J = Object (MonoVertexSpecDto J) MonoVertexStatusDto

abbrev pub IsbObject : Type 0 → Type 0
IsbObject J = Object (IsbSpecDto J) IsbStatusDto

abbrev pub Request : Type 0 → Type 0 → Type 0
Request W A = W → Result KubeError A × W

-- The requests; the last argument of those that change something is `dry_run`.
pub record KubeApi (W J : Type 0) : Type 0 where
  pub list_pipelines : Option Namespace → Request W (List (PipelineObject J))
  pub get_pipeline : Namespace → String → Request W (PipelineObject J)
  pub watch_pipeline : Namespace → String → W → List (Result String (Event (PipelineObject J))) × W
  pub patch_pipeline : Namespace → String → Patch J → Bool → Request W (PipelineObject J)
  pub patch_scale : Namespace → String → ℕ → Bool → Request W (Unit {0})
  pub list_isbs : Option Namespace → Request W (List (IsbObject J))
  pub list_monovertices : Option Namespace → Request W (List (MonoVertexObject J))
  pub get_monovertex : Namespace → String → Request W (MonoVertexObject J)
  pub patch_monovertex : Namespace → String → Patch J → Bool → Request W (Unit {0})
  pub list_pods : Namespace → Labels → Request W (List Pod)
  pub watch_pods : Namespace → Labels → W → List (Result String (Event Pod)) × W
  pub delete_pod : Namespace → String → Bool → Request W (Unit {0})
  -- With `timestamps`; the options are converted to those of the API.
  pub log_stream :
      Namespace → String → ContainerName → LogOptions → Request W (List (Result String String))

-- The documents of a manifest, and the conversions of the JSON and YAML libraries.
pub record Documents (J : Type 0) : Type 0 where
  pub parse : String → Result String J
  pub get : J → String → Option J
  pub as_str : J → Option String
  pub is_object : J → Bool
  -- The document with `metadata.namespace` set.
  pub with_namespace : J → String → J
  pub to_object : J → Result String (PipelineObject J)
  -- The text of the reasons of an invalid object and an invalid name.
  pub reason : Reason → String
  pub name_reason : InvalidName → String

abbrev line_or : String → Option LogLine → LogLine
line_or raw none = record { at = none; text = raw }
line_or raw (some l) = l

-- `parse_log_line`
unfoldable pub parse_log_line : TimeFormats → String → LogLine
parse_log_line times raw = line_or raw (
    Option.bind (split_once " " raw)
      (λ p. Option.map (λ at. record { at = some at; text = p.1 }) (times.parse_rfc3339 p.0)))

module _ {W A : Type 0} where
  -- A request, with its error mapped.
  unfoldable pub call : String → String → Request W A → Io W A
  call kind name request w = (map_err (map_kube kind name) (request w).0, (request w).1)

-- `try_filter_map` on a stream.
pub try_filter_map :
    {A B : Type 0} → (A → Result Error (Option B)) → List (Result String A) → List (Result Error B)
try_filter_map f [] = []
try_filter_map f (err text ∷ rest) = err (cluster text) ∷ try_filter_map f rest
try_filter_map f (ok a ∷ rest) = elim (f a) [
  | err e ↦ err e ∷ try_filter_map f rest
  | ok none ↦ try_filter_map f rest
  | ok (some b) ↦ ok b ∷ try_filter_map f rest
]
