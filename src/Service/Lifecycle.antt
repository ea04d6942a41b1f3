-- ===== src/Service/Lifecycle.antt =====
-- crates/nfctl-core/src/service/lifecycle.rs: pause, resume, recycle, wait. A bound on the time is
-- the number of calls that come back before it is up: `tokio::time::timeout` drops the rest.
pub mod Phase
pub mod Roll
pub mod Quiet
use nfctl.Common.{
  ℕ, zero, suc, String, Bool, true, false, not, ◌&&◌, ◌||◌, List, [], ◌∷◌, ◌++◌, map, Option, none,
  some, Result, ok, err, PartialEq, ◌==◌, string_eq, option_eq, if◌then◌else◌, is_empty, keep, all,
  length, leb, is_some,
}
use nfctl.Common.Int.{ℤ, pos, int_eq}
use nfctl.Common.Sort.{sort_by, leb_chars}
use nfctl.Error.{Error, timeout, not_found}
use nfctl.Ports.{ClusterPort, DaemonPort, DaemonConnector, Io, ◌>>=◌, give, fail}
use nfctl.Model.Ids.{VertexName, PipelineKey, PodName, Namespace, join, key_str}
use nfctl.Model.Time.{Timestamp, Duration}
use nfctl.Model.Topology.{Topology, vertex}
use nfctl.Model.Runtime.{BufferInfo}
use nfctl.Model.Pipeline.{
  Pipeline, PipelinePhase, pipeline_phase_eq, DesiredPhase, ResumeStrategy, fast,
}
use nfctl.Model.Pods.{Labels, PodRef, PodPhase, ContainerState, pod_phase_eq, vertex_pods}
use nfctl.Service.Status.{is_drained}

-- A bounded wait: the limit that the error names, and the calls that come back within it.
pub record Wait : Type 0 where
  pub limit : Duration
  pub calls : ℕ

module _ {W F : Type 0} (cluster : ClusterPort W F) where
  -- The last read of `wait_for_phase`, when the watch has ended.
  pub last_known : PipelineKey → PipelinePhase → Duration → ℕ → Io W (Pipeline F)
  last_known key phase limit zero = fail (timeout limit)
  last_known key phase limit (suc n) = cluster.get_pipeline key >>= λ p.
      if p.status.phase == phase then give p else fail (timeout limit)

  -- The loop of `wait_for_phase` over the watch.
  pub follow :
      PipelineKey
      → PipelinePhase
      → Duration
      → ℕ
      → List (Result Error (Pipeline F))
      → Io W (Pipeline F)
  follow key phase limit zero items = fail (timeout limit)
  follow key phase limit (suc n) [] = last_known key phase limit n
  follow key phase limit (suc n) (err e ∷ items) = fail e
  follow key phase limit (suc n) (ok p ∷ items) =
      let rest = follow key phase limit n items in if p.status.phase == phase then give p else rest

  -- The future that `timeout` bounds.
  pub wait_within : PipelineKey → PipelinePhase → Duration → ℕ → Io W (Pipeline F)
  wait_within key phase limit zero = fail (timeout limit)
  wait_within key phase limit (suc n) = cluster.watch_pipeline key >>= follow key phase limit n

  pub wait_for_phase : PipelineKey → PipelinePhase → Wait → Io W (Pipeline F)
  wait_for_phase key phase wait = wait_within key phase wait.limit wait.calls

pub record PauseReport : Type 0 where
  pub phase : PipelinePhase
  pub drained : Option Bool
  pub drained_on_pause : Bool
  pub dry_run : Bool

-- `ok().filter(|b| !b.is_empty()).map(...)` on the buffers of a daemon that was reached.
unfoldable pub buffers_drained : {F : Type 0} → Result Error (List (BufferInfo F)) → Option Bool
buffers_drained (err e) = none
buffers_drained (ok bs) = if is_empty bs then none else some (all is_drained bs)

unfoldable pub daemon_drained : {F : Type 0} → Result Error (DaemonPort F) → Option Bool
daemon_drained (err e) = none
daemon_drained (ok d) = buffers_drained d.buffers

pub data RecycleReport : Type 0 where
  pods : (vertex : VertexName) (deleted : List PodName) → RecycleReport
  pipeline : (paused_at : Timestamp) (drained : Option Bool) → RecycleReport

-- Pods that are up: phase Running with every container running that is not an init container.
unfoldable pub is_up : PodRef → Bool
is_up p = p.phase == PodPhase.running && all (λ c. c.is_init || c.running) p.containers

unfoldable pub running : List PodRef → ℕ
running found = length (keep is_up found)

-- `gone`: no pod of the list has the name.
unfoldable pub gone : PodName → List PodRef → Bool
gone name now = all (λ p. not (p.name == name)) now

abbrev pub pod_le : PodRef → PodRef → Bool
pod_le a b = leb_chars a.name b.name

module _ {W F : Type 0} (cluster : ClusterPort W F) where
  -- The polls after one deletion.
  unfoldable pub recovered :
      Namespace → Labels → (target : ℕ) → PodName → Duration → ℕ → Io W (Unit {0})
  recovered ns selector target name limit zero = fail (timeout limit)
  recovered ns selector target name limit (suc n) =
      let again = recovered ns selector target name limit n in
      cluster.list_pods ns selector >>= λ now.
      if gone name now && leb target (running now) then give tt else again

  -- The loop of `rolling_restart` over the pods, in the order that it deletes them.
  unfoldable pub roll :
      Namespace
      → Labels
      → (target : ℕ) → Wait
      → (dry_run : Bool) → List PodRef
      → List PodName
      → Io W (List PodName)
  roll ns selector target wait dry_run [] deleted = give deleted
  roll ns selector target wait dry_run (pod ∷ found) deleted =
      let rest = roll ns selector target wait dry_run found (deleted ++ (pod.name ∷ [])) in
      cluster.delete_pod ns pod.name dry_run >>= λ _.
      if dry_run
      then rest
      else (recovered ns selector target pod.name wait.limit wait.calls >>= λ _. rest)

  unfoldable pub rolling_restart :
      Namespace → Labels → Wait → (dry_run : Bool) → Io W (List PodName)
  rolling_restart ns selector wait dry_run = cluster.list_pods ns selector >>= λ found.
      roll ns selector (running (sort_by pod_le found)) wait dry_run (sort_by pod_le found) []

  -- Set the phase Running with a resume strategy.
  unfoldable pub resume : PipelineKey → ResumeStrategy → (dry_run : Bool) → Io W (Unit {0})
  resume key strategy dry_run =
      cluster.set_lifecycle key DesiredPhase.running (some strategy) dry_run

  -- What `pause` reads after it set the phase.
  unfoldable pub after_pause : PipelineKey → Option Wait → Io W (Pipeline F)
  after_pause key none = cluster.get_pipeline key
  after_pause key (some t) = wait_for_phase cluster key PipelinePhase.paused t

  unfoldable pub pause :
      DaemonConnector F → PipelineKey → Option Wait → (dry_run : Bool) → Io W PauseReport
  pause daemons key wait dry_run =
      cluster.set_lifecycle key DesiredPhase.paused none dry_run >>= λ _.
      if dry_run
      then (cluster.get_pipeline key >>= λ p. give (record {
        phase = p.status.phase;
        drained = none;
        drained_on_pause = false;
        dry_run = dry_run;
      }))
      else (after_pause key wait >>= λ p. give (record {
        phase = p.status.phase;
        drained = daemon_drained (daemons.connect key none);
        drained_on_pause = p.status.drained_on_pause;
        dry_run = dry_run;
      }))

  -- The pods of one vertex.
  pub recycle_pods :
      PipelineKey → VertexName → Wait → (all_at_once dry_run : Bool) → Io W (List PodName)
  recycle_pods key v wait all_at_once dry_run =
      if all_at_once
      then cluster.delete_pods key.namespace (vertex_pods key.name (some v)) dry_run
      else rolling_restart key.namespace (vertex_pods key.name (some v)) wait dry_run

  -- `recycle`; `now` is the clock.
  unfoldable pub recycle :
      (now : Timestamp)
      → DaemonConnector F
      → PipelineKey
      → Option VertexName
      → Wait
      → (all_at_once dry_run : Bool) → Io W RecycleReport
  recycle now daemons key (some v) wait all_at_once dry_run = cluster.get_pipeline key >>= λ p.
      if not (is_some (vertex p.spec.topology v))
      then fail (not_found "vertex" (join (key_str key) (join "/" v)))
      else (recycle_pods key v wait all_at_once dry_run >>= λ deleted. give (pods v deleted))
  recycle now daemons key none wait all_at_once dry_run =
      pause daemons key (some wait) dry_run >>= λ report.
      resume key fast dry_run >>= λ _. give (pipeline now report.drained)
