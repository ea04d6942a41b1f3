-- ===== src/K8s/Cluster/Calls/Port.antt =====
-- `impl ClusterPort for KubeCluster` (crates/nfctl-k8s/src/cluster.rs).
use nfctl.Ports.{ClusterPort}
use nfctl.K8s.Object.{Formats}
use nfctl.K8s.Cluster.{KubeApi, Documents}
use nfctl.K8s.Cluster.Calls.{
  list_pipelines, get_pipeline, watch_pipeline, set_lifecycle, parse_manifest, apply_manifest,
  scale_vertex, list_isb, list_monovertices, get_monovertex, set_monovertex_lifecycle, list_pods,
  watch_pods, delete_pods, delete_pod, tail_logs,
}

unfoldable pub kube_cluster :
    {W F J : Type 0} → KubeApi W J → Documents J → Formats F → ClusterPort W F
kube_cluster k d formats = record {
  list_pipelines = list_pipelines k d formats;
  get_pipeline = get_pipeline k d formats;
  watch_pipeline = watch_pipeline k d formats;
  set_lifecycle = set_lifecycle k d formats;
  parse_manifest = parse_manifest k d formats;
  apply_manifest = apply_manifest k d formats;
  scale_vertex = scale_vertex k d formats;
  list_isb = list_isb k d formats;
  list_monovertices = list_monovertices k d formats;
  get_monovertex = get_monovertex k d formats;
  set_monovertex_lifecycle = set_monovertex_lifecycle k d formats;
  list_pods = list_pods k d formats;
  watch_pods = watch_pods k d formats;
  delete_pods = delete_pods k d formats;
  delete_pod = delete_pod k d formats;
  tail_logs = tail_logs k d formats;
}
