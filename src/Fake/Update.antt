-- ===== src/Fake/Update.antt =====
-- What the life cycle procedures do to the fake cluster (crates/nfctl-core/src/fake/mod.rs).
use nfctl.Common.{
  String, ◌≤◌, Bool, true, false, List, [], ◌∷◌, Option, none, some, ok, ok_injective, ◌≡◌, refl,
  ap, ◌∙◌, arith, inl, inr, Bool-cases, ◌==◌, find,
}
use nfctl.Ports.{give, DaemonConnector, bind_ok}
use nfctl.Model.Ids.{PipelineKey, pipeline_key_eq, key_str}
use nfctl.Model.Time.{Timestamp}
use nfctl.Model.Pipeline.{
  Pipeline, PipelinePhase, pipeline_phase_eq, DesiredPhase, ResumeStrategy, fast,
}
use nfctl.Fake.{
  State, or_not_found, update_first, find_pipeline, watch_pipeline, set_desired, set_lifecycle,
}
use nfctl.Fake.Port.{fake_cluster}
use nfctl.Service.Lifecycle.Phase.{wait_for_phase_first}
use nfctl.Service.Lifecycle.{
  Wait, wait_for_phase, daemon_drained, pipeline, after_pause, pause, resume, recycle,
}

module _ {ℓ} {A : Type ℓ} (p : A → Bool) (f : A → A) (same : (a : A) → p (f a) ≡ p a) where
  update_first-twice :
      (g : A → A) (xs : List A)
      → update_first p g (update_first p f xs) ≡ update_first p (λ a. g (f a)) xs
  unfolding update_first
  update_first-twice g [] = refl
  update_first-twice g (x ∷ xs) = elim (Bool-cases (p x)) [
    | inl t ↦ rw (t, same x, t) refl
    | inr t ↦ rw (t, t) (ap (λ ys. x ∷ ys) (update_first-twice g xs))
  ]

  found_first : {x a : A} (xs : List A) → p x ≡ true → find p (x ∷ xs) ≡ some a → x ≡ a
  unfolding find
  found_first xs t h = ground (arith, h, t)

  find-update_first :
      (xs : List A) {a : A} → find p xs ≡ some a → find p (update_first p f xs) ≡ some (f a)
  unfolding update_first find
  find-update_first [] h = cc
  find-update_first (x ∷ xs) h = elim (Bool-cases (p x)) [
    | inl t ↦ rw (t, same x, t) (ap some (ap f (found_first xs t h)))
    | inr t ↦ rw (t, t) (find-update_first xs (rw t at h))
  ]

-- The cluster after the first pipeline of that key got the phase and the strategy.
abbrev pub with_desired :
    {F : Type 0} → PipelineKey → DesiredPhase → Option ResumeStrategy → State F → State F
with_desired key d r s = record s {
  pipelines = update_first (λ p. p.key == key) (set_desired d r) s.pipelines;
}

some_of_found :
    {A : Type 0} (kind name : String) (o : Option A) {a : A}
    → or_not_found kind name o ≡ ok a
    → o ≡ some a
some_of_found kind name none h = cc
some_of_found kind name (some b) h = ap some (ok_injective h)

set_desired-key :
    {F : Type 0} (key : PipelineKey) (d : DesiredPhase) (r : Option ResumeStrategy) (p : Pipeline F)
    → ((set_desired d r p).key == key) ≡ (p.key == key)
unfolding set_desired
set_desired-key key d r p = refl

set_desired-paused :
    {F : Type 0} (p : Pipeline F)
    → (set_desired DesiredPhase.paused none p).status.phase ≡ PipelinePhase.paused
unfolding set_desired
set_desired-paused p = refl

set_desired-twice :
    {F : Type 0} (d e : DesiredPhase) (r q : Option ResumeStrategy) (p : Pipeline F)
    → set_desired e q (set_desired d r p) ≡ set_desired e q p
unfolding set_desired
set_desired-twice d e r q p = refl

module _ {F : Type 0} (key : PipelineKey) (s : State F) (p : Pipeline F)
    (found : find_pipeline key s ≡ ok p) where
  set_lifecycle_found :
      (d : DesiredPhase) (r : Option ResumeStrategy)
      → set_lifecycle key d r false s ≡ (ok tt, with_desired key d r s)
  unfolding set_lifecycle
  set_lifecycle_found d r = rw (found, set_lifecycle) refl

  found_in : find (λ p. p.key == key) s.pipelines ≡ some p
  unfolding find_pipeline
  found_in = some_of_found "pipeline" (key_str key) (find (λ p. p.key == key) s.pipelines) found

  find_pipeline-with_desired :
      (d : DesiredPhase) (r : Option ResumeStrategy)
      → find_pipeline key (with_desired key d r s) ≡ ok (set_desired d r p)
  unfolding find_pipeline
  find_pipeline-with_desired d r = ap (or_not_found "pipeline" (key_str key)) (
      find-update_first (λ p. p.key == key) (set_desired d r) (set_desired-key key d r) s.pipelines
        found_in)

with_desired-twice :
    {F : Type 0} (key : PipelineKey) (d e : DesiredPhase) (r q : Option ResumeStrategy)
    (s : State F)
    → with_desired key e q (with_desired key d r s) ≡ with_desired key e q s
with_desired-twice key d e r q s =
    ap (λ ps. record s { pipelines = ps })
      (update_first-twice (λ p. p.key == key) (set_desired d r) (set_desired-key key d r)
          (set_desired e q) s.pipelines
        ∙ ap (λ f. update_first (λ p. p.key == key) f s.pipelines)
            (λ i p. set_desired-twice d e r q p i))

module _ {F : Type 0} (key : PipelineKey) (s : State F) (p : Pipeline F)
    (found : find_pipeline key s ≡ ok p) where
  fake_wait :
      (wait : Wait)
      → p.status.phase ≡ PipelinePhase.paused
      → 2 ≤ wait.calls
      → wait_for_phase fake_cluster key PipelinePhase.paused wait s ≡ (ok p, s)
  fake_wait wait e h =
      (wait_for_phase_first fake_cluster key PipelinePhase.paused wait s s [] p []
          (unfold fake_cluster in unfold watch_pipeline in rw (found, watch_pipeline) refl) tt e).0
        h

-- A pipeline that runs, as desired and as reported, with the fast strategy.
abbrev pub running_fast : {F : Type 0} → Pipeline F → Pipeline F
running_fast p = record p {
  spec = record p.spec { lifecycle = record p.spec.lifecycle { desired = DesiredPhase.running } };
  meta = record p.meta { resume_strategy = some fast };
  status = record p.status { phase = PipelinePhase.running };
}

set_desired-running_fast :
    {F : Type 0} (p : Pipeline F) → set_desired DesiredPhase.running (some fast) p ≡ running_fast p
unfolding set_desired
set_desired-running_fast p = refl

-- Recycling a whole pipeline of the fake cluster, with time for the watch, ends well: it reports
-- what the daemon says of the buffers, and all that changes in the cluster is that the pipeline has
-- the phase Running, desired and reported, and the fast strategy.
pub recycle_fake :
    {F : Type 0} (now : Timestamp) (d : DaemonConnector F) (key : PipelineKey) (wait : Wait)
    (all_at_once : Bool)
    → (s : State F) (p : Pipeline F) → find_pipeline key s ≡ ok p
    → 2 ≤ wait.calls
    → recycle fake_cluster now d key none wait all_at_once false s ≡ (
      ok (pipeline now (daemon_drained (d.connect key none))),
      record s { pipelines = update_first (λ q. q.key == key) running_fast s.pipelines },
    )
unfolding recycle pause resume after_pause fake_cluster
recycle_fake now d key wait all_at_once s p found h =
    let t = with_desired key DesiredPhase.paused none s in
    let at_t = find_pipeline-with_desired key s p found DesiredPhase.paused none in
    let q = set_desired DesiredPhase.paused none p in
    let paused : pause fake_cluster d key (some wait) false s ≡ (
      ok (record {
        phase = q.status.phase;
        drained = daemon_drained (d.connect key none);
        drained_on_pause = q.status.drained_on_pause;
        dry_run = false;
      }),
      t,
    ) =
      bind_ok (set_lifecycle key DesiredPhase.paused none false) _
        (set_lifecycle_found key s p found DesiredPhase.paused none)
      ∙ bind_ok (wait_for_phase fake_cluster key PipelinePhase.paused wait) _
          (fake_wait key t q at_t wait (set_desired-paused p) h) in
    bind_ok (pause fake_cluster d key (some wait) false) _ paused
    ∙ bind_ok (set_lifecycle key DesiredPhase.running (some fast) false) _
        (set_lifecycle_found key t q at_t DesiredPhase.running (some fast))
    ∙ ap
        (λ (x : State _). give {W = State _} (pipeline now (daemon_drained (d.connect key none))) x)
        (with_desired-twice key DesiredPhase.paused DesiredPhase.running none (some fast) s
          ∙ ap (λ f. record s { pipelines = update_first (λ q. q.key == key) f s.pipelines })
              (λ i x. set_desired-running_fast x i))
