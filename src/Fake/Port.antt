-- ===== src/Fake/Port.antt =====
-- `impl ClusterPort for FakeCluster` (crates/nfctl-core/src/fake/mod.rs).
use nfctl.Ports.{ClusterPort}
use nfctl.Fake.{
  State, list_pipelines, get_pipeline, watch_pipeline, set_lifecycle, parse_manifest,
  apply_manifest, scale_vertex, list_isb, list_monovertices, get_monovertex,
  set_monovertex_lifecycle,
}
use nfctl.Fake.Pods.{list_pods, watch_pods, delete_pods, delete_pod, tail_logs}

unfoldable pub fake_cluster : {F : Type 0} → ClusterPort (State F) F
fake_cluster = record {
  list_pipelines = list_pipelines;
  get_pipeline = get_pipeline;
  watch_pipeline = watch_pipeline;
  set_lifecycle = set_lifecycle;
  parse_manifest = parse_manifest;
  apply_manifest = apply_manifest;
  scale_vertex = scale_vertex;
  list_isb = list_isb;
  list_monovertices = list_monovertices;
  get_monovertex = get_monovertex;
  set_monovertex_lifecycle = set_monovertex_lifecycle;
  list_pods = list_pods;
  watch_pods = watch_pods;
  delete_pods = delete_pods;
  delete_pod = delete_pod;
  tail_logs = tail_logs;
}
