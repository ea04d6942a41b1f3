-- ===== src/Fake/Dry.antt =====
-- The fake keeps what the services ask of dry runs and reads.
use nfctl.Common.{true, Option, ◌≡◌, refl, inl, inr, Option-cases, Result-cases}
use nfctl.Model.Ids.{PipelineKey, PodName, Namespace}
use nfctl.Model.Pipeline.{DesiredPhase, ResumeStrategy}
use nfctl.Fake.{State, get_pipeline, set_lifecycle, find_pipeline}
use nfctl.Fake.Pods.{list_pods, delete_pods, delete_pod, find_pod}
use nfctl.Fake.Port.{fake_cluster}
use nfctl.Service.Lifecycle.Quiet.{HonoursDryRun}

set_lifecycle_dry :
    {F : Type 0} (key : PipelineKey) (d : DesiredPhase) (r : Option ResumeStrategy) (s : State F)
    → (set_lifecycle key d r true s).1 ≡ s
unfolding set_lifecycle
set_lifecycle_dry key d r s = elim (Result-cases (find_pipeline key s)) [
  | inl (p, q) ↦ rw (q, set_lifecycle) refl
  | inr (e, q) ↦ rw (q, set_lifecycle) refl
]

delete_pod_dry :
    {F : Type 0} (ns : Namespace) (pod : PodName) (s : State F) → (delete_pod ns pod true s).1 ≡ s
unfolding delete_pod
delete_pod_dry ns pod s = elim (Option-cases (find_pod s.pods pod)) [
  | inl q ↦ rw (q, delete_pod) refl
  | inr (p, q) ↦ rw (q, delete_pod) refl
]

-- On the fake cluster, reads and dry runs leave the state as it is, errors included.
pub fake_cluster-HonoursDryRun : {F : Type 0} → HonoursDryRun (fake_cluster {F = F})
unfolding fake_cluster get_pipeline list_pods delete_pods
fake_cluster-HonoursDryRun = record {
  get_pipeline = λ key w. refl;
  list_pods = λ ns selector w. refl;
  set_lifecycle = set_lifecycle_dry;
  delete_pods = λ ns selector w. refl;
  delete_pod = delete_pod_dry;
}
