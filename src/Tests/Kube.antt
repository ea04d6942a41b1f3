-- ===== src/Tests/Kube.antt =====
-- The port over Kubernetes (crates/nfctl-k8s/src/cluster.rs) on a server with two pods, whose state is
-- the list of the pods that were deleted.
use nfctl.Common.{
  String, false, true, List, [], ◌∷◌, ◌++◌, ◌==◌, ltb, arith, map, none, some, ok, err, ◌≡◌, refl,
  ap, all, if◌then◌else◌,
}
use mathlib.Core.Option
use nfctl.Ports.{◌>>=◌}
use nfctl.Error.{cluster, not_found, timeout}
use nfctl.Model.Ids.{new_name, check_dns_label, check_chars, join, key_str}
use nfctl.K8s.Pods.{Pod, into_pod_ref}
use nfctl.Model.Pipeline.{PipelinePhase, pipeline_phase_eq}
use nfctl.Service.Lifecycle.{Wait, recycle, wait_for_phase}
use nfctl.K8s.Cluster.Calls.Port.{kube_cluster}
use nfctl.K8s.Cluster.Calls.Watch.{
  Shows, nothing, begins, complete, brings, listed, gone, kube_wait_ends,
}
use nfctl.Tests.Services.{key, daemons}
use nfctl.K8s.Cluster.{
  Event, init, init_apply, init_done, delete, PipelineObject, KubeError, api, KubeApi, Documents,
  map_kube, call, parse_log_line,
}
use nfctl.Graph.Scan.{split_once, strip_prefix}
use nfctl.Graph.Shards.{decimal, digits}
use nfctl.K8s.Cluster.Calls.{list_pods, delete_each, delete_pods}
use nfctl.K8s.Cluster.Calls.Dry.{KeepsState, Quiet, kube_dry_run, kube_recycle_dry_run}
use nfctl.Tests.Wire.{formats, object, read, read_phase}

abbrev wait : Wait
wait = record { limit = 10; calls = 3 }

abbrev State : Type 0
State = List String

abbrev none_yet : KubeError
none_yet = api 404 "not found"

abbrev pod : String → Pod
pod name = record {
  metadata = record {
    name = some name;
    namespace = none;
    annotations = none;
    generation = none;
    creation_timestamp = none;
  };
  spec = none;
  status = none;
}

abbrev server : {J : Type 0} → KubeApi State J
server = record {
  list_pipelines = λ ns w. (ok [], w);
  get_pipeline = λ ns n w. (err none_yet, w);
  watch_pipeline = λ ns n w. ([], w);
  patch_pipeline = λ ns n p dry w. (err none_yet, w);
  patch_scale = λ ns n r dry w. (ok tt, w);
  list_isbs = λ ns w. (ok [], w);
  list_monovertices = λ ns w. (ok [], w);
  get_monovertex = λ ns n w. (err none_yet, w);
  patch_monovertex = λ ns n p dry w. (ok tt, w);
  list_pods = λ ns selector w. (ok (pod "a" ∷ pod "b" ∷ []), w);
  watch_pods = λ ns selector w. ([], w);
  delete_pod = λ ns n dry w. (ok tt, (if dry then w else n ∷ w));
  log_stream = λ ns n c opts w. (ok [], w);
}

abbrev documents : {J : Type 0} → J → Documents J
documents j = record {
  parse = λ text. ok j;
  get = λ doc field. none;
  as_str = λ doc. none;
  is_object = λ doc. false;
  with_namespace = λ doc ns. doc;
  to_object = λ doc. err "no object";
  reason = λ r. "";
  name_reason = λ r. "";
}

server-KeepsState : {J : Type 0} → KeepsState (server {J = J})
server-KeepsState = record {
  list_pipelines = λ ns w. refl;
  get_pipeline = λ ns n w. refl;
  get_monovertex = λ ns n w. refl;
  list_pods = λ ns selector w. refl;
  patch_pipeline = λ ns n p w. refl;
  patch_scale = λ ns n r w. refl;
  patch_monovertex = λ ns n p w. refl;
  delete_pod = λ ns n w. refl;
}

dry_runs-Quiet : Quiet server (documents tt) formats
dry_runs-Quiet = kube_dry_run server (documents tt) formats server-KeepsState

both_deleted :
    delete_pods server (documents tt) formats "ns" [] false []
    ≡ (ok ("a" ∷ "b" ∷ []), "b" ∷ "a" ∷ [])
unfolding delete_pods delete_each list_pods call ◌>>=◌ new_name check_dns_label check_chars all
    Option.bind into_pod_ref
both_deleted = refl

server_error : map_kube "pod" "a" (api 500 "boom") ≡ cluster "boom (HTTP 500)"
unfolding map_kube join decimal digits
server_error = refl

untimed : parse_log_line formats.times "no stamp" ≡ record { at = none; text = "no stamp" }
unfolding parse_log_line split_once strip_prefix Option.bind
untimed = refl

kube_recycle_dry_run_example :
    (recycle
      (kube_cluster server (documents tt) formats)
      7
      daemons
      key
      (some "cat")
      wait
      false
      true
      ("x" ∷ [])).1
    ≡ "x" ∷ []
kube_recycle_dry_run_example =
    kube_recycle_dry_run server (documents tt) formats server-KeepsState 7 daemons key (some "cat")
      wait false ("x" ∷ [])

-- A server that lists the pipeline of a test and then deletes it.
abbrev events : List (Event (PipelineObject (Unit {0})))
events = init ∷ init_apply object ∷ init_done ∷ []

abbrev watching : KubeApi State (Unit {0})
watching = record server {
  watch_pipeline = λ ns n w. (map ok events ++ (ok (delete object) ∷ []), w);
}

shown : Shows watching (documents tt) formats events (read.0 ∷ [])
shown = begins (brings listed read.1 (complete nothing))

not_running : (read.0.status.phase == PipelinePhase.running) ≡ false
not_running = ap (λ x. x == PipelinePhase.running) read_phase

kube_wait_ends_example :
    wait_for_phase (kube_cluster watching (documents tt) formats) key PipelinePhase.running wait []
    ≡ (if ltb 2 3 then (err (not_found "pipeline" (key_str key)), []) else (err (timeout 10), []))
kube_wait_ends_example =
    kube_wait_ends watching (documents tt) formats key PipelinePhase.running wait [] [] events
      (read.0 ∷ []) (ok (delete object)) [] _ (omega arith) refl shown (not_running, tt)
      (gone object)
