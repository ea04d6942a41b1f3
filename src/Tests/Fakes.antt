-- ===== src/Tests/Fakes.antt =====
-- The fake cluster and the services on it (crates/nfctl-core/src/fake, crates/nfctl-core/src/service).
use nfctl.Common.{
  ℕ, String, Bool, true, false, List, [], ◌∷◌, ◌++◌, none, some, Result, ok, err, ◌≡◌, refl, map,
  find, contains, keep, all, any, is_ok, max,
}
use mathlib.Core.Option
use mathlib.Core.List.{flatten}
use nfctl.Common.Int.{pos}
use nfctl.Error.{Error, container_not_found, daemon, forbidden}
use nfctl.Ports.{DaemonConnector, ◌>>=◌}
use nfctl.Model.Ids.{new_name, check_dns_label, check_chars, join, max_subdomain}
use nfctl.Model.MonoVertex.{MonoVertexPhase}
use nfctl.Model.Pipeline.{Pipeline, PipelinePhase, DesiredPhase}
use nfctl.Model.Pods.{LogLine, LogOptions, resync, resync_done, applied}
use nfctl.Model.Runtime.{Float, BufferInfo}
use nfctl.Model.Workload.{of_monovertex, namespace, name, kind, of_pipeline, of_pipeline_key}
use nfctl.Fake.{
  State, emit, apply_event, get_manifest, register_manifest, parse_manifest, apply_manifest,
  scale_vertex, list_isb, find_monovertex, get_monovertex, set_monovertex_desired,
  set_monovertex_lifecycle, update_first, get_pipeline, find_pipeline, list_pipelines,
}
use nfctl.Fake.Daemons.{daemon_port, daemon_for, connector}
use nfctl.Fake.Pods.{
  get_logs, pod_logs, push_script, pop_script, script_for, script, replay, watch_pods, delete_each,
  delete_pods, list_pods, replacement_name, replace_pod, tail_logs,
}
use nfctl.Fake.Port.{fake_cluster}
use nfctl.Fake.Start.{
  Fixture, with_pipelines, cluster_of, add_pipelines, add_monovertices, add_isbs, one_daemon,
  daemons_of,
}
use nfctl.Fake.Snapshot.{all_lines, Outcome, snapshot_fixture}
use nfctl.Service.Lifecycle.{buffers_drained, daemon_drained}
use nfctl.Service.Logs.{
  default_containers, all_containers, named, available, has_container, add_default,
  select_containers, validate_named_containers,
}
use nfctl.Service.Logs.Snapshot.{
  TailOptions, tag_lines, start_tail, snapshot_container, snapshot_pod, snapshot_pods, snapshot,
}
use nfctl.Service.Logs.Task.{new_task, options, attend, run_tail}
use nfctl.Service.Status.{EdgeView, max_usage, usage, is_full, is_drained, total, health_failed}
use nfctl.Service.Status.Mono.{MonoVertexView, ask_monovertex, monovertex_view}
use nfctl.Service.Pipelines.{workload_le, list, list_isb as list_services, get_workload}
use nfctl.Tests.Services.{cluster as small, key, sample_pipeline, sample_pod}
use nfctl.Tests.Models.{sample_monovertex}

abbrev world : State ℕ
world = record small { monovertices = sample_monovertex ∷ []; pods = sample_pod "p-a" ∷ [] }

-- What was applied can be read; a dry run applies nothing.
abbrev changed : Pipeline ℕ
changed = record (sample_pipeline PipelinePhase.paused) {
  key = record { namespace = "ns"; name = "q" };
}

applied_once :
    (apply_manifest "text" "ns" false (register_manifest "text" changed world)).1.pipelines
    ≡ sample_pipeline PipelinePhase.running ∷ changed ∷ []
unfolding apply_manifest register_manifest get_manifest keep
applied_once = refl

unregistered : is_ok (parse_manifest "text" "ns" world).0 ≡ false
unfolding parse_manifest get_manifest
unregistered = refl

scaled : (scale_vertex key "cat" 3 false world).1.scaled ≡ (key, "cat", 3) ∷ []
unfolding scale_vertex
scaled = refl

monovertex-paused :
    map
      (λ m. m.phase)
      (set_monovertex_lifecycle sample_monovertex.key DesiredPhase.paused false
        world).1.monovertices
    ≡ MonoVertexPhase.paused ∷ []
unfolding set_monovertex_lifecycle find_monovertex set_monovertex_desired find update_first
monovertex-paused = refl

all_deleted : (delete_pods "ns" [] false small).0 ≡ ok ("p-b" ∷ "p-a" ∷ [])
unfolding delete_pods
all_deleted = refl

nothing-left : (delete_pods "ns" [] false small).1.pods ≡ []
unfolding delete_pods delete_each emit apply_event keep find
nothing-left = refl

watched :
    (watch_pods "ns" [] world).0
    ≡ ok (map ok (resync ∷ applied (sample_pod "p-a") ∷ resync_done ∷ []))
unfolding watch_pods replay
watched = refl

abbrev line : String → LogLine
line text = record { at = some 1; text = text }

-- Scripts are served in the order in which they were queued; then there is nothing.
abbrev scripted : State ℕ
scripted =
    script "p-a" "numa" (record { lines = line "two" ∷ []; hang = false })
      (script "p-a" "numa" (record { lines = line "one" ∷ []; hang = true }) world)

abbrev following : LogOptions
following = record { follow = true; since = none; tail_lines = none }

first_script :
    ((tail_logs "ns" "p-a" "numa" following scripted).0 ≡ ok (ok (line "one") ∷ []))
    × ((tail_logs "ns" "p-a" "numa" following scripted).1.hung ≡ 1)
    × ((tail_logs "ns" "p-a" "numa" following (tail_logs "ns" "p-a" "numa" following scripted).1).0
        ≡ ok (ok (line "two") ∷ []))
unfolding tail_logs script push_script pop_script script_for pod_logs get_logs find Option.bind
first_script = (refl, refl, refl)

-- A snapshot tags the lines that are there.
snapshot-one :
    (snapshot fake_cluster "ns"
      (record { containers = default_containers; since = none; tail_lines = none })
      []
      scripted).0
    ≡ ok (record { pod = "p-a"; container = "numa"; line = line "one" } ∷ [])
unfolding snapshot snapshot_pods snapshot_pod snapshot_container tag_lines select_containers
    has_container add_default any ◌>>=◌ fake_cluster list_pods validate_named_containers tail_logs
    script push_script pop_script script_for
snapshot-one = refl

tail-watches :
    (start_tail fake_cluster "ns"
      (record { containers = default_containers; since = none; tail_lines = none })
      []
      world).0
    ≡ ok (map ok (replay world.pods))
unfolding start_tail fake_cluster watch_pods
tail-watches = refl

-- The fifth failure in a row ends a tail.
abbrev failures : List (Result Error (List (Result Error LogLine)))
failures =
    err (forbidden "a") ∷ err (forbidden "b") ∷ err (forbidden "c") ∷ err (forbidden "d") ∷ []

gives_up :
    ((run_tail (λ _. "no") failures (new_task none none)).1 ≡ false)
    × ((run_tail (λ _. "no") (failures ++ (err (forbidden "e") ∷ [])) (new_task none none)).1
        ≡ true)
    × ((options (new_task (some 3) none)).since ≡ some 3)
unfolding run_tail attend options
gives_up = (refl, refl, refl)

abbrev part : ℕ → Bool → BufferInfo ℕ
part n full = record {
  name = "b";
  sources = "in" ∷ [];
  to = "cat";
  pending = some (pos 0);
  ack_pending = some (pos 0);
  total = none;
  length = none;
  usage = some (record { get = n });
  usage_limit = none;
  is_full = some full;
}

abbrev numbers : Float ℕ
numbers = record { is_finite = λ _. true; in_unit = λ _. true; max = max }

abbrev edge : EdgeView ℕ
edge = record {
  from = "in";
  to = "cat";
  buffers = part 3 false ∷ part 5 true ∷ [];
  watermark = none;
}

edge_numbers :
    (usage numbers edge ≡ some 5)
    × (is_full edge ≡ true)
    × (total (record { spec = 1; connect = 2; numbers = 3 }) ≡ 6)
unfolding usage max_usage is_full total any
edge_numbers = (refl, refl, refl)

drained-buffers :
    (buffers_drained (ok edge.buffers) ≡ some true)
    × (daemon_drained {F = ℕ} (err (daemon "down")) ≡ none)
unfolding buffers_drained daemon_drained is_drained all
drained-buffers = (refl, refl)

abbrev silent : DaemonConnector ℕ
silent = connector (record {
  default = record { buffers = []; metrics = []; watermarks = []; health = none };
  by_name = [];
})

monovertex_view-warnings :
    (v : MonoVertexView ℕ) × (monovertex_view fake_cluster silent sample_monovertex.key 5 world
      ≡ (ok v, world))
    × (v.warnings ≡ health_failed (daemon "no health configured") ∷ [])
unfolding monovertex_view ask_monovertex fake_cluster get_monovertex find_monovertex find ◌>>=◌
    connector daemon_port daemon_for keep
monovertex_view-warnings = (_, refl, refl)

found-workload :
    (get_workload fake_cluster (of_pipeline_key key) world).0
    ≡ ok (of_pipeline (sample_pipeline PipelinePhase.running))
unfolding get_workload of_pipeline_key fake_cluster get_pipeline find_pipeline find ◌>>=◌
found-workload = refl

-- Pipelines come by their names.
in_order :
    (list fake_cluster none
      (record world { pipelines = changed ∷ sample_pipeline PipelinePhase.running ∷ [] })).0
    ≡ ok (sample_pipeline PipelinePhase.running ∷ changed ∷ [])
unfolding list fake_cluster list_pipelines keep ◌>>=◌
in_order = refl

no_services : (list_services fake_cluster none world).0 ≡ ok []
unfolding list_services fake_cluster list_isb keep ◌>>=◌
no_services = refl

-- A pod name of 252 bytes, which has no replacement.
abbrev long_name : String
long_name =
    "aaaaaaaaaaaaaaaaaaaaaaaaaaaaaaaaaaaaaaaaaaaaaaaaaaaaaaaaaaaaaaaaaaaaaaaaaaaaaaaaaaaaaaaaaaaaaaaaaaaaaaaaaaaaaaaaaaaaaaaaaaaaaaaaaaaaaaaaaaaaaaaaaaaaaaaaaaaaaaaaaaaaaaaaaaaaaaaaaaaaaaaaaaaaaaaaaaaaaaaaaaaaaaaaaaaaaaaaaaaaaaaaaaaaaaaaaaaaaaaaaaaaaaaaaaaa"

no_replacement :
    (new_name max_subdomain long_name ≡ ok long_name)
    × (is_ok (replacement_name long_name) ≡ false)
    × (replacement_name "p-a" ≡ ok "p-a-r")
unfolding replacement_name new_name check_dns_label check_chars join all
no_replacement = (refl, refl, refl)

replaced : map (λ p. p.name) (replace_pod (sample_pod "p-a") "p-a-r" world).pods ≡ "p-a-r" ∷ []
unfolding replace_pod emit apply_event keep
replaced = refl

ordered_workloads :
    workload_le
      (of_monovertex sample_monovertex)
      (of_pipeline (sample_pipeline PipelinePhase.running))
    ≡ true
unfolding workload_le namespace name kind
ordered_workloads = refl

abbrev fixture : Fixture ℕ
fixture = record {
  pipelines = sample_pipeline PipelinePhase.running ∷ [];
  monovertices = [];
  isbs = [];
  daemons = [];
  pods = record { pod = sample_pod "p-a"; logs = ("numa", line "one" ∷ []) ∷ [] } ∷ [];
}

abbrev asked : TailOptions
asked = record { containers = named ("numa" ∷ "nope" ∷ []); since = none; tail_lines = none }

snapshot_fixture_example :
    Outcome asked.containers fixture.pods
      (snapshot fake_cluster "ns" asked [] (cluster_of fixture)).0
snapshot_fixture_example = snapshot_fixture fixture "ns" asked [] ((λ q m. elim m [ ]), tt)

-- The second name is of no container.
not_there :
    (snapshot fake_cluster "ns" asked [] (cluster_of fixture)).0
    ≡ err (container_not_found "nope" ("numa" ∷ []))
unfolding snapshot fake_cluster list_pods cluster_of validate_named_containers available find
    contains any flatten ◌>>=◌
not_there = refl

the_line :
    all_lines all_containers fixture.pods
    ≡ record { pod = "p-a"; container = "numa"; line = line "one" } ∷ []
unfolding select_containers get_logs keep flatten
the_line = refl

-- The cluster of a fixture is the one that is filled by hand.
filled :
    add_isbs [] (add_monovertices [] (add_pipelines fixture.pipelines (with_pipelines [])))
    ≡ with_pipelines fixture.pipelines
unfolding add_isbs add_monovertices add_pipelines with_pipelines
filled = refl

health_missing :
    is_ok (daemon_port (one_daemon (daemons_of fixture).default).default).health ≡ false
unfolding daemon_port one_daemon daemons_of
health_missing = refl
