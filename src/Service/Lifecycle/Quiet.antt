-- ===== src/Service/Lifecycle/Quiet.antt =====
-- A dry run of the procedures (crates/nfctl-core/src/service/lifecycle.rs) changes nothing.
use nfctl.Common.{
  ℕ, Bool, true, false, List, [], ◌∷◌, ◌++◌, Option, none, some, Result, ok, err, ◌≡◌, inl, inr,
  refl, ◌∙◌, Bool-cases, is_some,
}
use nfctl.Error.{Error}
use nfctl.Ports.{ClusterPort, DaemonConnector, Io, ◌>>=◌, go_on}
use nfctl.Model.Ids.{VertexName, PipelineKey, PodName, Namespace}
use nfctl.Model.Time.{Timestamp}
use nfctl.Model.Topology.{vertex}
use nfctl.Model.Pipeline.{DesiredPhase, ResumeStrategy, fast}
use nfctl.Model.Pods.{Labels, PodRef}
use nfctl.Service.Lifecycle.{Wait, roll, rolling_restart, resume, pause, recycle_pods, recycle}

-- The call leaves the state as it is.
abbrev pub Keeps : {W A : Type 0} → Io W A → Type 0
Keeps {W} m = (w : W) → (m w).1 ≡ w

-- What a cluster promises of reads and of dry runs.
pub record HonoursDryRun {W F : Type 0} (c : ClusterPort W F) : Type 0 where
  pub get_pipeline : (key : PipelineKey) → Keeps (c.get_pipeline key)
  pub list_pods : (ns : Namespace) (selector : Labels) → Keeps (c.list_pods ns selector)
  pub set_lifecycle :
      (key : PipelineKey) (d : DesiredPhase) (r : Option ResumeStrategy)
      → Keeps (c.set_lifecycle key d r true)
  pub delete_pods : (ns : Namespace) (selector : Labels) → Keeps (c.delete_pods ns selector true)
  pub delete_pod : (ns : Namespace) (pod : PodName) → Keeps (c.delete_pod ns pod true)

pub Keeps-bind :
    {W A B : Type 0} (m : Io W A) (f : A → Io W B)
    → Keeps m
    → ((a : A) → Keeps (f a))
    → Keeps (m >>= f)
unfolding ◌>>=◌
Keeps-bind {W} {A} m f h k w = kept (m w) (h w)
  where
    kept : (x : Result Error A × W) → x.1 ≡ w → (go_on f x).1 ≡ w
    kept (ok a, t) p = k a t ∙ p
    kept (err e, t) p = p

module _ {W F : Type 0} (c : ClusterPort W F) (promise : HonoursDryRun c) where
  roll-Keeps :
      (ns : Namespace) (selector : Labels) (target : ℕ) (wait : Wait) (pods : List PodRef)
      (deleted : List PodName)
      → Keeps (roll c ns selector target wait true pods deleted)
  unfolding roll
  roll-Keeps ns selector target wait [] deleted = λ w. refl
  roll-Keeps ns selector target wait (pod ∷ pods) deleted =
      Keeps-bind (c.delete_pod ns pod.name true) _ (promise.delete_pod ns pod.name)
        (λ _. roll-Keeps ns selector target wait pods (deleted ++ (pod.name ∷ [])))

  rolling_restart-Keeps :
      (ns : Namespace) (selector : Labels) (wait : Wait)
      → Keeps (rolling_restart c ns selector wait true)
  unfolding rolling_restart
  rolling_restart-Keeps ns selector wait =
      Keeps-bind (c.list_pods ns selector) _ (promise.list_pods ns selector)
        (λ found. roll-Keeps ns selector _ wait _ [])

  recycle_pods-Keeps :
      (key : PipelineKey) (v : VertexName) (wait : Wait) (all_at_once : Bool)
      → Keeps (recycle_pods c key v wait all_at_once true)
  unfolding recycle_pods
  recycle_pods-Keeps key v wait true = promise.delete_pods _ _
  recycle_pods-Keeps key v wait false = rolling_restart-Keeps _ _ wait

  pause-Keeps :
      (d : DaemonConnector F) (key : PipelineKey) (wait : Option Wait)
      → Keeps (pause c d key wait true)
  unfolding pause
  pause-Keeps d key wait =
      Keeps-bind (c.set_lifecycle key DesiredPhase.paused none true) _
        (promise.set_lifecycle key DesiredPhase.paused none)
        (λ _. Keeps-bind (c.get_pipeline key) _ (promise.get_pipeline key) (λ p w. refl))

-- On a cluster that honours dry runs, a dry run of `recycle` leaves the cluster as it is: for a
-- vertex, known or not, all at once or rolling, and for a whole pipeline.
pub recycle_dry_run :
    {W F : Type 0} (c : ClusterPort W F)
    → HonoursDryRun c
    → (now : Timestamp) (d : DaemonConnector F)
    → (key : PipelineKey) (v : Option VertexName) (wait : Wait) (all_at_once : Bool) (w : W)
    → (recycle c now d key v wait all_at_once true w).1 ≡ w
unfolding recycle resume
recycle_dry_run c promise now d key (some v) wait all_at_once =
    Keeps-bind (c.get_pipeline key) _ (promise.get_pipeline key) (λ p.
      elim (Bool-cases (is_some (vertex p.spec.topology v))) [
        | inl q ↦ rw q (
            Keeps-bind (recycle_pods c key v wait all_at_once true) _
              (recycle_pods-Keeps c promise key v wait all_at_once) (λ deleted w. refl))
        | inr q ↦ rw q (λ w. refl)
      ])
recycle_dry_run c promise now d key none wait all_at_once =
    Keeps-bind (pause c d key (some wait) true) _ (pause-Keeps c promise d key (some wait))
      (λ report.
        Keeps-bind (c.set_lifecycle key DesiredPhase.running (some fast) true) _
          (promise.set_lifecycle key DesiredPhase.running (some fast)) (λ _ w. refl))
