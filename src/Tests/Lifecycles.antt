-- ===== src/Tests/Lifecycles.antt =====
-- Waiting and recycling on the fake cluster (crates/nfctl-core/src/service/lifecycle.rs).
use nfctl.Common.{
  ◌==◌, ℕ, true, false, [], ◌∷◌, ◌++◌, none, some, ok, err, ◌≡◌, if◌then◌else◌, ltb, refl, arith,
  find, map,
}
use nfctl.Error.{timeout}
use nfctl.Model.Ids.{pipeline_key_eq}
use nfctl.Model.Pipeline.{PipelinePhase}
use nfctl.Fake.{find_pipeline, watch_pipeline, get_pipeline, update_first}
use nfctl.Ports.{◌>>=◌}
use nfctl.Fake.Port.{fake_cluster}
use nfctl.Fake.Dry.{fake_cluster-HonoursDryRun}
use nfctl.Fake.Update.{running_fast, recycle_fake}
use nfctl.Service.Lifecycle.{Wait, recycle, wait_for_phase, daemon_drained, pipeline}
use nfctl.Service.Lifecycle.Phase.{conclude, wait_for_phase_ends}
use nfctl.Service.Lifecycle.Quiet.{recycle_dry_run}
use nfctl.Tests.Services.{key, cluster, sample_pipeline, daemons}

abbrev wait : Wait
wait = record { limit = 10; calls = 2 }

abbrev four_calls : Wait
four_calls = record { limit = 10; calls = 4 }

runs_find : Unit {0}
unfolding find_pipeline find
runs_find = tt

found : find_pipeline key cluster ≡ ok (sample_pipeline PipelinePhase.running)
unfolding runs_find
found = refl

dry_run_on_fake :
    (recycle fake_cluster 7 daemons key (some "cat") wait false true cluster).1 ≡ cluster
dry_run_on_fake =
    recycle_dry_run fake_cluster (fake_cluster-HonoursDryRun {F = ℕ}) 7 daemons key (some "cat")
      wait false cluster

recycle_fake_example : recycle fake_cluster 7 daemons key none wait false false cluster ≡ (
  ok (pipeline 7 (daemon_drained (daemons.connect key none))),
  record cluster { pipelines = update_first (λ q. q.key == key) running_fast cluster.pipelines },
)
recycle_fake_example =
    recycle_fake 7 daemons key wait false cluster (sample_pipeline PipelinePhase.running) found
      (omega arith)

watched :
    fake_cluster.watch_pipeline key cluster
    ≡ (ok (map ok (sample_pipeline PipelinePhase.running ∷ []) ++ []), cluster)
unfolding fake_cluster watch_pipeline find_pipeline find
watched = refl

-- The watch ends with the pipeline running, and one more read does not find it paused.
wait_for_phase_ends_example :
    wait_for_phase fake_cluster key PipelinePhase.paused four_calls cluster ≡ (
      if ltb 3 4
      then conclude fake_cluster key PipelinePhase.paused 10 [] cluster
      else (err (timeout 10), cluster))
wait_for_phase_ends_example =
    wait_for_phase_ends fake_cluster key PipelinePhase.paused four_calls cluster cluster
      (sample_pipeline PipelinePhase.running ∷ []) [] (omega arith) watched (refl, tt) tt

last_read :
    conclude fake_cluster key PipelinePhase.paused 10 [] cluster ≡ (err (timeout 10), cluster)
unfolding ◌>>=◌ fake_cluster get_pipeline runs_find
last_read = refl
