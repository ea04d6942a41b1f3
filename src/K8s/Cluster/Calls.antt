-- ===== src/K8s/Cluster/Calls.antt =====
-- The calls of `impl ClusterPort for KubeCluster` (crates/nfctl-k8s/src/cluster.rs).
pub mod Port
pub mod Watch
pub mod Dry
use Prim.Native.String.{String}
use nfctl.Common.{
  ℕ, Bool, true, false, not, List, [], ◌∷◌, ◌++◌, Option, none, some, ◌==◌, string_eq, nat_eq,
  Result, ok, err, or_else, map_err, map, traverse, is_some, if◌then◌else◌,
}
use mathlib.Core.Option
use nfctl.Error.{Error, not_found, forbidden, cluster}
use nfctl.Ports.{ClusterPort, Io, give, fail, lift, go_on, ◌>>=◌}
use nfctl.Model.Ids.{
  Namespace, PipelineKey, VertexName, PodName, ContainerName, InvalidName, new_name, max_label,
  join, key_str,
}
use nfctl.Model.Time.{TimeFormats}
use nfctl.Model.Pipeline.{Pipeline, DesiredPhase, ResumeStrategy, desired_str, strategy_str}
use nfctl.Model.MonoVertex.{MonoVertex, MonoVertexKey, monovertex_key_str}
use nfctl.Model.Isb.{IsbService}
use nfctl.Model.Pods.{
  Labels, PodRef, PodEvent, applied, deleted, resync, resync_done, LogOptions, LogLine,
  resume_strategy_label,
}
use nfctl.Graph.Shards.{decimal}
use nfctl.Graph.Scan.{split_once}
use nfctl.K8s.Object.{Metadata, Object, Formats, Reason, Invalid}
use nfctl.K8s.Dto.{PipelineSpecDto, PipelineStatusDto}
use nfctl.K8s.MonoVertex.{MonoVertexSpecDto, MonoVertexStatusDto, into_monovertex}
use nfctl.K8s.Isb.{IsbSpecDto, IsbStatusDto, into_isb}
use nfctl.K8s.Pods.{Pod, into_pod_ref}
use nfctl.K8s.Pipeline.{into_pipeline}
use nfctl.K8s.Cluster.{
  KubeError, Event, apply, init_apply, delete, init, init_done, Patch, lifecycle, document,
  PipelineObject, KubeApi, Documents, parse_log_line, call, try_filter_map,
}

module _ {W F J : Type 0} (k : KubeApi W J) (d : Documents J) (formats : Formats F) where
  -- `Error::Invalid` of a conversion.
  abbrev pub converted : {A : Type 0} → Result Invalid A → Result Error A
  converted r = map_err (λ (i : Invalid). Error.invalid i.kind i.name (d.reason i.reason)) r

  abbrev into : PipelineObject J → Result Error (Pipeline F)
  into o = converted (into_pipeline formats o)

  abbrev of_manifest : String → Error
  of_manifest reason = Error.invalid "manifest" "<input>" reason

  abbrev scope : Option Namespace → String
  scope ns = or_else ns "*"

  unfoldable pub list_pipelines : Option Namespace → Io W (List (Pipeline F))
  list_pipelines ns =
      call "namespace" (scope ns) (k.list_pipelines ns) >>= λ items. lift (traverse into items)

  unfoldable pub get_pipeline : PipelineKey → Io W (Pipeline F)
  get_pipeline key =
      call "pipeline" (key_str key) (k.get_pipeline key.namespace key.name) >>= λ o. lift (into o)

  abbrev pub found : Result Error (Pipeline F) → Result Error (Option (Pipeline F))
  found (ok p) = ok (some p)
  found (err e) = err e

  -- What an event of the watch is to a reader of the pipeline.
  abbrev pub watched : String → Event (PipelineObject J) → Result Error (Option (Pipeline F))
  watched name (apply o) = found (into o)
  watched name (init_apply o) = found (into o)
  watched name (delete o) = err (not_found "pipeline" name)
  watched name init = ok none
  watched name init_done = ok none

  unfoldable pub watch_pipeline : PipelineKey → Io W (List (Result Error (Pipeline F)))
  watch_pipeline key w = (
    ok (try_filter_map (watched (key_str key)) (k.watch_pipeline key.namespace key.name w).0),
    (k.watch_pipeline key.namespace key.name w).1,
  )

  abbrev annotation : Option ResumeStrategy → Option (String × String)
  annotation r = Option.map (λ s. (resume_strategy_label, strategy_str s)) r

  unfoldable pub set_lifecycle :
      PipelineKey → DesiredPhase → Option ResumeStrategy → Bool → Io W (Unit {0})
  set_lifecycle key desired resume dry_run =
      call "pipeline" (key_str key) (
        k.patch_pipeline key.namespace key.name
          (lifecycle (desired_str desired) (annotation resume) false) dry_run)
      >>= λ _. give tt

  abbrev kind_of : J → String
  kind_of doc = or_else (Option.bind (d.get doc "kind") d.as_str) ""

  pub parse_document : String → Result Error J
  parse_document text = elim (d.parse text) [
    | err reason ↦ err (of_manifest reason)
    | ok doc ↦
        if kind_of doc == "Pipeline"
        then ok doc
        else err (of_manifest (join "kind is `" (join (kind_of doc) "`, expected `Pipeline`")))
  ]

  abbrev object_of : J → Result Error (PipelineObject J)
  object_of doc = map_err of_manifest (d.to_object doc)

  abbrev in_namespace : Namespace → PipelineObject J → PipelineObject J
  in_namespace ns o = record o {
    metadata = record (o.metadata) { namespace = some (or_else o.metadata.namespace ns) };
  }

  unfoldable pub parse_manifest : String → Namespace → Io W (Pipeline F)
  parse_manifest text default_ns = lift (parse_document text) >>= λ doc.
      lift (object_of doc) >>= λ o. lift (into (in_namespace default_ns o))

  -- The document with a namespace, its name and its namespace, from its metadata.
  abbrev placed : J → Namespace → J → J × (String × String)
  placed doc default_ns meta =
      let name = or_else (Option.bind (d.get meta "name") d.as_str) "" in
      elim (d.get meta "namespace") [
        | some ns ↦ (doc, (name, or_else (d.as_str ns) ""))
        | none ↦ (d.with_namespace doc default_ns, (name, default_ns))
      ]

  abbrev metadata_of : J → Result Error J
  metadata_of doc = elim (d.get doc "metadata") [
    | none ↦ err (of_manifest "no metadata")
    | some meta ↦ if d.is_object meta then ok meta else err (of_manifest "no metadata")
  ]

  abbrev namespace_of : String → Result Error Namespace
  namespace_of raw =
      map_err (λ e. of_manifest (join "namespace: " (d.name_reason e))) (new_name max_label raw)

  unfoldable pub apply_manifest : String → Namespace → Bool → Io W (Pipeline F)
  apply_manifest text default_ns dry_run = lift (parse_document text) >>= λ doc.
      lift (metadata_of doc) >>= λ meta.
      lift (namespace_of (placed doc default_ns meta).1.1) >>= λ ns.
      lift (object_of (placed doc default_ns meta).0) >>= λ o. lift (into o) >>= λ _.
      call "pipeline" (placed doc default_ns meta).1.0 (
        k.patch_pipeline ns (placed doc default_ns meta).1.0
          (document (placed doc default_ns meta).0) dry_run)
      >>= λ applied. lift (into applied)

  unfoldable pub scale_vertex : PipelineKey → VertexName → ℕ → Bool → Io W (Unit {0})
  scale_vertex key vertex replicas dry_run =
      call "vertex" (join (key_str key) (join "/" vertex))
        (k.patch_scale key.namespace (join key.name (join "-" vertex)) replicas dry_run)

  unfoldable pub list_isb : Option Namespace → Io W (List IsbService)
  list_isb ns = call "namespace" (scope ns) (k.list_isbs ns) >>= λ items.
      lift (traverse (λ o. converted (into_isb o)) items)

  unfoldable pub list_monovertices : Option Namespace → Io W (List MonoVertex)
  list_monovertices ns = call "namespace" (scope ns) (k.list_monovertices ns) >>= λ items.
      lift (traverse (λ o. converted (into_monovertex formats o)) items)

  unfoldable pub get_monovertex : MonoVertexKey → Io W MonoVertex
  get_monovertex key =
      call "monovertex" (monovertex_key_str key) (k.get_monovertex key.namespace key.name) >>= λ o.
      lift (converted (into_monovertex formats o))

  abbrev clears : DesiredPhase → Bool
  clears DesiredPhase.paused = false
  clears DesiredPhase.running = true

  unfoldable pub set_monovertex_lifecycle : MonoVertexKey → DesiredPhase → Bool → Io W (Unit {0})
  set_monovertex_lifecycle key desired dry_run = call "monovertex" (monovertex_key_str key) (
      k.patch_monovertex key.namespace key.name
        (lifecycle (desired_str desired) none (clears desired)) dry_run)

  abbrev refs_of : List Pod → List PodRef
  refs_of [] = []
  refs_of (p ∷ ps) = elim (into_pod_ref p) [ none ↦ refs_of ps | some r ↦ r ∷ refs_of ps ]

  unfoldable pub list_pods : Namespace → Labels → Io W (List PodRef)
  list_pods ns selector =
      call "namespace" ns (k.list_pods ns selector) >>= λ items. give (refs_of items)

  abbrev pod_event : Event Pod → Result Error (Option PodEvent)
  pod_event (apply p) = ok (Option.map applied (into_pod_ref p))
  pod_event (init_apply p) = ok (Option.map applied (into_pod_ref p))
  pod_event (delete p) = ok (Option.map deleted (into_pod_ref p))
  pod_event init = ok (some resync)
  pod_event init_done = ok (some resync_done)

  unfoldable pub watch_pods : Namespace → Labels → Io W (List (Result Error PodEvent))
  watch_pods ns selector w =
      (ok (try_filter_map pod_event (k.watch_pods ns selector w).0), (k.watch_pods ns selector w).1)

  -- The loop of `delete_pods`.
  unfoldable pub delete_each : Namespace → Bool → List PodRef → List PodName → Io W (List PodName)
  delete_each ns dry_run [] done = give done
  delete_each ns dry_run (p ∷ ps) done = call "pod" p.name (k.delete_pod ns p.name dry_run) >>= λ _.
      delete_each ns dry_run ps (done ++ p.name ∷ [])

  unfoldable pub delete_pods : Namespace → Labels → Bool → Io W (List PodName)
  delete_pods ns selector dry_run = list_pods ns selector >>= λ pods. delete_each ns dry_run pods []

  unfoldable pub delete_pod : Namespace → PodName → Bool → Io W (Unit {0})
  delete_pod ns pod dry_run = call "pod" pod (k.delete_pod ns pod dry_run)

  abbrev log_line : Result String String → Result Error LogLine
  log_line (ok raw) = ok (parse_log_line formats.times raw)
  log_line (err text) = err (cluster text)

  unfoldable pub tail_logs :
      Namespace → PodName → ContainerName → LogOptions → Io W (List (Result Error LogLine))
  tail_logs ns pod container opts =
      call "pod" pod (k.log_stream ns pod container opts) >>= λ raws. give (map log_line raws)
