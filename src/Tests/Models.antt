-- ===== src/Tests/Models.antt =====
-- The domain types on small inputs (crates/nfctl-core/src/model).
use nfctl.Common.{ℕ, String, true, false, List, [], ◌∷◌, none, some, ◌≡◌, refl, all, keep}
use mathlib.Core.Option
use nfctl.Common.{leb, max}
use nfctl.Error.{usage, check_failed, unimplemented, forbidden, exit_code}
use nfctl.Model.Ids.{key_str, join}
use nfctl.Model.Time.{elapsed_until}
use nfctl.Model.Topology.{count}
use nfctl.Model.Runtime.{Float, new_fraction}
use nfctl.Model.Isb.{IsbPhase, parse_isb_phase}
use nfctl.Model.MonoVertex.{MonoVertex, MonoVertexPhase, monovertex_key_str, monovertex_phase_str}
use nfctl.Model.Pipeline.{
  default_lifecycle, DesiredPhase, PipelinePhase, from_topology, age as pipeline_age,
}
use nfctl.Model.Pods.{
  get_label, vertex_pods, monovertex_pods, monovertex_daemon_pods, daemon_pods, matches,
  selector_str,
}
use nfctl.Model.Workload.{
  Workload, WorkloadKind, WorkloadPhase, of_pipeline, of_monovertex, kind_str, workload_phase_str,
  of_pipeline_phase, of_monovertex_phase, of_monovertex_key, kind, key, namespace, name, phase,
  desired, vertices, counts, replicas, isb, message, age,
}
use nfctl.Tests.Shapes.{linear}
use nfctl.Tests.Services.{sample_pipeline}

abbrev pub sample_monovertex : MonoVertex
sample_monovertex = record {
  key = record { namespace = "ns"; name = "m" };
  desired = DesiredPhase.running;
  phase = MonoVertexPhase.running;
  replicas = 1;
  desired_replicas = some 1;
  ready_replicas = some 1;
  has_transformer = true;
  has_map = false;
  has_fallback = false;
  message = none;
  conditions = [];
  created = some 0;
}

exit_codes :
    (exit_code (usage "no such flag") ≡ 2)
    × (exit_code (check_failed "blocked") ≡ 3)
    × (exit_code (unimplemented "later") ≡ 4)
    × (exit_code (forbidden "pods") ≡ 1)
unfolding exit_code
exit_codes = (refl, refl, refl, refl)

isb_phases :
    (parse_isb_phase "Failed" ≡ IsbPhase.failed) × (parse_isb_phase "Odd" ≡ IsbPhase.unknown)
unfolding parse_isb_phase
isb_phases = (refl, refl)

counts-linear :
    from_topology linear
    ≡ record { total = 3; sources = 1; sinks = 1; udfs = 1; map_udfs = 1; reduce_udfs = 0 }
unfolding from_topology count keep
counts-linear = refl

keys_as_text :
    (key_str (sample_pipeline PipelinePhase.running).key ≡ "ns/p")
    × (monovertex_key_str sample_monovertex.key ≡ "ns/m")
unfolding key_str monovertex_key_str join
keys_as_text = (refl, refl)

abbrev mono : Workload ℕ
mono = of_monovertex sample_monovertex

-- A time before the creation has no age.
ages :
    (age (of_pipeline (sample_pipeline PipelinePhase.running)) 9 ≡ some 9)
    × (age mono 9 ≡ some 9)
    × (elapsed_until 5 3 ≡ none)
unfolding age pipeline_age elapsed_until Option.bind
ages = (refl, refl, refl)

-- A fraction in thousandths.
abbrev thousandths : Float ℕ
thousandths = record { is_finite = λ _. true; in_unit = λ n. leb n 1000; max = max }

fractions :
    (new_fraction thousandths 800 ≡ some (record { get = 800 }))
    × (new_fraction thousandths 1001 ≡ none)
unfolding new_fraction
fractions = (refl, refl)

abbrev cat_labels : List (String × String)
cat_labels =
    ("app.kubernetes.io/component", "vertex")
    ∷ ("numaflow.numaproj.io/pipeline-name", "p")
    ∷ ("numaflow.numaproj.io/vertex-name", "cat")
    ∷ []

selector_rendered :
    selector_str (vertex_pods "p" (some "v"))
    ≡ "app.kubernetes.io/component=vertex,numaflow.numaproj.io/pipeline-name=p,numaflow.numaproj.io/vertex-name=v"
unfolding selector_str vertex_pods join
selector_rendered = refl

selectors :
    (matches (vertex_pods "p" (some "cat")) cat_labels ≡ true)
    × (matches (vertex_pods "p" none) cat_labels ≡ true)
    × (matches (vertex_pods "p" (some "in")) cat_labels ≡ false)
    × (matches (daemon_pods "p") cat_labels ≡ false)
    × (matches (monovertex_pods "p") cat_labels ≡ false)
    × (matches (monovertex_daemon_pods "p") cat_labels ≡ false)
unfolding matches vertex_pods daemon_pods monovertex_pods monovertex_daemon_pods get_label all
selectors = (refl, refl, refl, refl, refl, refl)

workloads :
    (kind mono ≡ WorkloadKind.monovertex)
    × (key mono ≡ of_monovertex_key sample_monovertex.key)
    × (namespace mono ≡ "ns")
    × (name mono ≡ "m")
    × (phase mono ≡ WorkloadPhase.running)
    × (desired mono ≡ DesiredPhase.running)
    × (vertices mono ≡ 1)
    × (counts mono ≡ none)
    × (replicas mono ≡ some (1, some 1))
    × (isb mono ≡ none)
    × (message mono ≡ none)
    × (phase (of_pipeline (sample_pipeline PipelinePhase.paused)) ≡ WorkloadPhase.paused)
unfolding kind key namespace name phase of_monovertex_phase of_pipeline_phase desired vertices
    counts replicas isb message
workloads = (refl, refl, refl, refl, refl, refl, refl, refl, refl, refl, refl, refl)

-- A kind and a phase in words, and the grace that a pipeline has by default.
words :
    (kind_str (kind mono) ≡ "MonoVertex")
    × (workload_phase_str (phase mono) ≡ monovertex_phase_str sample_monovertex.phase)
    × (default_lifecycle.pause_grace ≡ 30000000000)
unfolding kind phase of_monovertex_phase
words = (refl, refl, refl)
