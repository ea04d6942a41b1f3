-- ===== src/K8s/Cluster/Calls/Dry.antt =====
-- Reads and dry runs of crates/nfctl-k8s/src/cluster.rs change nothing on the server.
use nfctl.Common.{ℕ, String, Bool, true, List, [], ◌∷◌, ◌++◌, Option, ◌≡◌, refl}
use nfctl.Model.Ids.{Namespace, PipelineKey, VertexName, PodName}
use nfctl.Model.Pipeline.{DesiredPhase, ResumeStrategy}
use nfctl.Model.MonoVertex.{MonoVertexKey}
use nfctl.Model.Pods.{Labels, PodRef}
use nfctl.K8s.Object.{Formats}
use nfctl.K8s.Cluster.{Patch, Request, KubeApi, Documents, call}
use nfctl.K8s.Cluster.Calls.{
  list_pipelines, get_pipeline, set_lifecycle, apply_manifest, scale_vertex, get_monovertex,
  set_monovertex_lifecycle, list_pods, delete_each, delete_pods, delete_pod,
}
use nfctl.K8s.Cluster.Calls.Port.{kube_cluster}
use nfctl.Service.Lifecycle.Quiet.{Keeps, Keeps-bind, HonoursDryRun, recycle_dry_run}
use nfctl.Service.Lifecycle.{Wait, recycle}
use nfctl.Ports.{DaemonConnector}
use nfctl.Model.Time.{Timestamp}

-- What the API of Kubernetes documents of reads, and of requests with `dryRun`.
pub record KeepsState {W J : Type 0} (k : KubeApi W J) : Type 0 where
  pub list_pipelines : (ns : Option Namespace) (w : W) → (k.list_pipelines ns w).1 ≡ w
  pub get_pipeline : (ns : Namespace) (n : String) (w : W) → (k.get_pipeline ns n w).1 ≡ w
  pub get_monovertex : (ns : Namespace) (n : String) (w : W) → (k.get_monovertex ns n w).1 ≡ w
  pub list_pods : (ns : Namespace) (selector : Labels) (w : W) → (k.list_pods ns selector w).1 ≡ w
  pub patch_pipeline :
      (ns : Namespace) (n : String) (p : Patch J) (w : W) → (k.patch_pipeline ns n p true w).1 ≡ w
  pub patch_scale :
      (ns : Namespace) (n : String) (r : ℕ) (w : W) → (k.patch_scale ns n r true w).1 ≡ w
  pub patch_monovertex :
      (ns : Namespace) (n : String) (p : Patch J) (w : W) → (k.patch_monovertex ns n p true w).1 ≡ w
  pub delete_pod : (ns : Namespace) (n : String) (w : W) → (k.delete_pod ns n true w).1 ≡ w

call-Keeps :
    {W A : Type 0} (kind name : String) (request : Request W A)
    → ((w : W) → (request w).1 ≡ w)
    → Keeps (call kind name request)
unfolding call
call-Keeps kind name request h = h

module _ {W F J : Type 0} (k : KubeApi W J) (d : Documents J) (formats : Formats F)
    (h : KeepsState k) where
  get_pipeline-Keeps : (key : PipelineKey) → Keeps (get_pipeline k d formats key)
  unfolding get_pipeline
  get_pipeline-Keeps key =
      Keeps-bind _ _ (call-Keeps _ _ _ (h.get_pipeline key.namespace key.name)) (λ o w. refl)

  apply_manifest-Keeps :
      (text : String) (ns : Namespace) → Keeps (apply_manifest k d formats text ns true)
  unfolding apply_manifest
  apply_manifest-Keeps text ns =
      Keeps-bind _ _ (λ w. refl)
        (λ doc.
          Keeps-bind _ _ (λ w. refl)
            (λ meta.
              Keeps-bind _ _ (λ w. refl)
                (λ at.
                  Keeps-bind _ _ (λ w. refl)
                    (λ o.
                      Keeps-bind _ _ (λ w. refl)
                        (λ p.
                          Keeps-bind _ _ (call-Keeps _ _ _ (h.patch_pipeline _ _ _))
                            (λ x w. refl))))))

  delete_each-Keeps :
      (ns : Namespace) (pods : List PodRef) (done : List PodName)
      → Keeps (delete_each k d formats ns true pods done)
  unfolding delete_each
  delete_each-Keeps ns [] done = λ w. refl
  delete_each-Keeps ns (p ∷ ps) done =
      Keeps-bind _ _ (call-Keeps _ _ _ (h.delete_pod ns p.name))
        (λ _. delete_each-Keeps ns ps (done ++ p.name ∷ []))

  list_pods-Keeps : (ns : Namespace) (selector : Labels) → Keeps (list_pods k d formats ns selector)
  unfolding list_pods
  list_pods-Keeps ns selector =
      Keeps-bind _ _ (call-Keeps _ _ _ (h.list_pods ns selector)) (λ items w. refl)

-- Calls of the port that leave the server as it is.
abbrev pub Quiet : {W F J : Type 0} → KubeApi W J → Documents J → Formats F → Type 0
Quiet k d formats =
    ((ns : Option Namespace) → Keeps (list_pipelines k d formats ns))
    × ((key : PipelineKey) → Keeps (get_pipeline k d formats key))
    × ((key : MonoVertexKey) → Keeps (get_monovertex k d formats key))
    × ((ns : Namespace) (selector : Labels) → Keeps (list_pods k d formats ns selector))
    × ((key : PipelineKey) (p : DesiredPhase) (r : Option ResumeStrategy)
        → Keeps (set_lifecycle k d formats key p r true))
    × ((key : MonoVertexKey) (p : DesiredPhase)
        → Keeps (set_monovertex_lifecycle k d formats key p true))
    × ((text : String) (ns : Namespace) → Keeps (apply_manifest k d formats text ns true))
    × ((key : PipelineKey) (v : VertexName) (n : ℕ) → Keeps (scale_vertex k d formats key v n true))
    × ((ns : Namespace) (selector : Labels) → Keeps (delete_pods k d formats ns selector true))
    × ((ns : Namespace) (pod : PodName) → Keeps (delete_pod k d formats ns pod true))

-- On a server that keeps its state in reads and in requests with `dryRun`, the reads of pipelines, of
-- one MonoVertex and of the list of pods leave it as it is, and so do dry runs of each call that
-- changes something.
pub kube_dry_run :
    {W F J : Type 0} (k : KubeApi W J) (d : Documents J) (formats : Formats F)
    → KeepsState k
    → Quiet k d formats
unfolding list_pipelines set_lifecycle set_monovertex_lifecycle scale_vertex get_monovertex
    delete_pods delete_pod
kube_dry_run k d formats h = (
  λ ns. Keeps-bind _ _ (call-Keeps _ _ _ (h.list_pipelines ns)) (λ o w. refl),
  get_pipeline-Keeps k d formats h,
  λ key. Keeps-bind _ _ (call-Keeps _ _ _ (h.get_monovertex key.namespace key.name)) (λ o w. refl),
  list_pods-Keeps k d formats h,
  λ key p r. Keeps-bind _ _ (call-Keeps _ _ _ (h.patch_pipeline _ _ _)) (λ o w. refl),
  λ key p. call-Keeps _ _ _ (h.patch_monovertex _ _ _),
  apply_manifest-Keeps k d formats h,
  λ key v n. call-Keeps _ _ _ (h.patch_scale _ _ n),
  λ ns selector.
      Keeps-bind _ _ (list_pods-Keeps k d formats h ns selector)
        (λ pods. delete_each-Keeps k d formats h ns pods []),
  λ ns pod. call-Keeps _ _ _ (h.delete_pod ns pod),
)

pub kube_cluster-HonoursDryRun :
    {W F J : Type 0} (k : KubeApi W J) (d : Documents J) (formats : Formats F)
    → KeepsState k
    → HonoursDryRun (kube_cluster k d formats)
unfolding kube_cluster
kube_cluster-HonoursDryRun k d formats h =
    let (_, get, _, list, lifecycle, _, _, _, all, one) = kube_dry_run k d formats h in
    record {
      get_pipeline = get;
      list_pods = list;
      set_lifecycle = lifecycle;
      delete_pods = all;
      delete_pod = one;
    }

-- On a server that keeps its state in reads and in requests with `dryRun`, a dry run of `recycle`
-- over the port of Kubernetes leaves the server as it is: for a vertex, known or not, all at once
-- or rolling, and for a whole pipeline, whatever fails.
pub kube_recycle_dry_run :
    {W F J : Type 0} (k : KubeApi W J) (d : Documents J) (formats : Formats F)
    → KeepsState k
    → (now : Timestamp) (connector : DaemonConnector F)
    → (key : PipelineKey) (v : Option VertexName) (wait : Wait) (all_at_once : Bool) (w : W)
    → (recycle (kube_cluster k d formats) now connector key v wait all_at_once true w).1 ≡ w
kube_recycle_dry_run k d formats h =
    recycle_dry_run (kube_cluster k d formats) (kube_cluster-HonoursDryRun k d formats h)
