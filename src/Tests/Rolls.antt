-- ===== src/Tests/Rolls.antt =====
-- A rolling restart and the lists of the services, on the fake cluster.
use nfctl.Common.{ℕ, false, List, [], ◌∷◌, ◌++◌, none, ok, ◌≡◌, refl, map, find, keep, all, any}
use mathlib.Core.List.{Perm}
use nfctl.Common.Sort.{Sorted}
use nfctl.Ports.{◌>>=◌}
use nfctl.Model.Ids.{new_name, check_dns_label, check_chars, join}
use nfctl.Model.MonoVertex.{MonoVertex}
use nfctl.Model.Pipeline.{Pipeline, PipelinePhase}
use nfctl.Model.Pods.{PodRef}
use nfctl.Model.Workload.{Workload, of_pipeline, of_monovertex, namespace, name, kind}
use nfctl.Fake.{State, emit, apply_event, list_pipelines, list_monovertices}
use nfctl.Fake.Pods.{list_pods, delete_pod, replacement_name, replace_pod}
use nfctl.Fake.Port.{fake_cluster}
use nfctl.Service.Lifecycle.{Wait, is_up, running, gone, pod_le, recovered, roll, rolling_restart}
use nfctl.Service.Lifecycle.Roll.{Rolls, rolling_restart-Rolls}
use nfctl.Service.Pipelines.{list_workloads, workload_le}
use nfctl.Service.Pipelines.Order.{IsOrdered, list_workloads-IsOrdered}
use nfctl.Tests.Models.{sample_monovertex}
use nfctl.Tests.Services.{cluster, sample_pipeline}

abbrev wait : Wait
wait = record { limit = 10; calls = 2 }

runs_roll : Unit {0}
unfolding rolling_restart roll recovered running gone is_up fake_cluster list_pods delete_pod
    replacement_name replace_pod emit apply_event ◌>>=◌ find keep all any new_name check_dns_label
    check_chars join
runs_roll = tt

abbrev after : State ℕ
after = (rolling_restart fake_cluster "ns" [] wait false cluster).1

rolled : rolling_restart fake_cluster "ns" [] wait false cluster ≡ (ok ("p-a" ∷ "p-b" ∷ []), after)
unfolding runs_roll
rolled = refl

rolling_restart-Rolls_example :
    (found pods : List PodRef) × (t : State ℕ) × (fake_cluster.list_pods "ns" [] cluster
      ≡ (ok found, t))
    × Perm pods found
    × Sorted pod_le pods
    × (("p-a" ∷ "p-b" ∷ []) ≡ map (λ p. p.name) pods)
    × Rolls fake_cluster "ns" [] (running pods) t pods after
rolling_restart-Rolls_example =
    rolling_restart-Rolls fake_cluster "ns" [] wait cluster after ("p-a" ∷ "p-b" ∷ []) rolled

-- A pipeline and a MonoVertex of one name, and a MonoVertex whose name comes before.
abbrev twin : MonoVertex
twin = record sample_monovertex { key = record { namespace = "ns"; name = "p" } }

abbrev mixed : State ℕ
mixed = record cluster { monovertices = twin ∷ sample_monovertex ∷ [] }

abbrev in_order : List (Workload ℕ)
in_order =
    of_monovertex sample_monovertex
    ∷ of_pipeline (sample_pipeline PipelinePhase.running)
    ∷ of_monovertex twin
    ∷ []

listed : list_workloads fake_cluster none mixed ≡ (ok in_order, mixed)
unfolding list_workloads fake_cluster list_pipelines list_monovertices ◌>>=◌ keep workload_le
    namespace name kind
listed = refl

list_workloads-IsOrdered_example :
    (ps : List (Pipeline ℕ)) × (ms : List MonoVertex) × (t : State ℕ) × (fake_cluster.list_pipelines
        none mixed
      ≡ (ok ps, t))
    × (fake_cluster.list_monovertices none t ≡ (ok ms, mixed))
    × Perm in_order (map of_pipeline ps ++ map of_monovertex ms)
    × IsOrdered in_order
list_workloads-IsOrdered_example =
    list_workloads-IsOrdered fake_cluster none mixed mixed in_order listed
