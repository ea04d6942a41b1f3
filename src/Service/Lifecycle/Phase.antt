-- ===== src/Service/Lifecycle/Phase.antt =====
-- What `wait_for_phase` (crates/nfctl-core/src/service/lifecycle.rs) waits for.
use nfctl.Common.{
  ℕ, zero, suc, ◌+◌, ◌≤◌, ◌<◌, if◌then◌else◌, ltb, false, List, [], ◌∷◌, ◌++◌, map, Result, ok, err,
  ◌≡◌, inl, inr, refl, ◌∙◌, arith, All, length, Bool-cases, ◌==◌, eq_of_beq, beq_of_eq,
}
use nfctl.Error.{Error, timeout}
use nfctl.Ports.{ClusterPort, Io, give, fail, lift, ◌>>=◌, bind_ok, ok_of_io}
use nfctl.Model.Ids.{PipelineKey}
use nfctl.Model.Time.{Duration}
use nfctl.Model.Pipeline.{Pipeline, PipelinePhase, pipeline_phase_eq}
use nfctl.Service.Lifecycle.{Wait, last_known, follow, wait_within, wait_for_phase}

module _ {W F : Type 0} (c : ClusterPort W F) (key : PipelineKey) (phase : PipelinePhase) where
  last_known_phase :
      (limit : Duration) (n : ℕ) (w s : W) {p : Pipeline F}
      → last_known c key phase limit n w ≡ (ok p, s)
      → p.status.phase ≡ phase
  unfolding last_known
  last_known_phase limit zero w s h = cc
  last_known_phase limit (suc n) w s h =
      let (q, t, _, k) = ok_of_io (c.get_pipeline key) _ h in
      elim (Bool-cases (q.status.phase == phase)) [
        | inl e ↦ cc (rw e at k, eq_of_beq q.status.phase phase e)
        | inr e ↦ absurd (cc (rw e at k))
      ]

  follow_phase :
      (limit : Duration) (n : ℕ) (items : List (Result Error (Pipeline F))) (w s : W)
      {p : Pipeline F}
      → follow c key phase limit n items w ≡ (ok p, s)
      → p.status.phase ≡ phase
  unfolding follow
  follow_phase limit zero items w s h = cc
  follow_phase limit (suc n) [] w s h = last_known_phase limit n w s h
  follow_phase limit (suc n) (err e ∷ items) w s h = cc
  follow_phase limit (suc n) (ok q ∷ items) w s h = elim (Bool-cases (q.status.phase == phase)) [
    | inl e ↦ cc (rw e at h, eq_of_beq q.status.phase phase e)
    | inr e ↦ follow_phase limit n items w s (rw e at h)
  ]

  wait_within_phase :
      (limit : Duration) (n : ℕ) (w s : W) (p : Pipeline F)
      → wait_within c key phase limit n w ≡ (ok p, s)
      → p.status.phase ≡ phase
  unfolding wait_within
  wait_within_phase limit zero w s p h = cc
  wait_within_phase limit (suc n) w s p h =
      let (items, t, _, k) = ok_of_io (c.watch_pipeline key) _ h in follow_phase limit n items t s k

  -- A pipeline that `wait_for_phase` returns has the phase that was waited for.
  wait_for_phase_sound :
      (wait : Wait) (w s : W) (p : Pipeline F)
      → wait_for_phase c key phase wait w ≡ (ok p, s)
      → p.status.phase ≡ phase
  unfolding wait_for_phase
  wait_for_phase_sound wait w s p h = wait_within_phase wait.limit wait.calls w s p h

  abbrev pub Other : List (Pipeline F) → Type 0
  Other = All (λ q. (q.status.phase == phase) ≡ false)

  -- What the wait comes to where no pipeline that was seen has the phase: the first item that is an
  -- error or has it, or one more read.
  abbrev pub Decides : List (Result Error (Pipeline F)) → Type 0
  Decides (ok p ∷ rest) = p.status.phase ≡ phase
  Decides _ = Unit {0}

  abbrev pub read_again : Duration → Pipeline F → Io W (Pipeline F)
  read_again limit p = if p.status.phase == phase then give p else fail (timeout limit)

  abbrev pub conclude : Duration → List (Result Error (Pipeline F)) → Io W (Pipeline F)
  conclude limit [] = c.get_pipeline key >>= read_again limit
  conclude limit (item ∷ rest) = lift item

  -- The calls after those for what came before.
  abbrev pub calls_left : List (Result Error (Pipeline F)) → ℕ
  calls_left [] = 2
  calls_left (_ ∷ _) = 1

  last_known_ends :
      (limit : Duration) (n : ℕ) (w : W)
      → (1 ≤ n → last_known c key phase limit n w ≡ conclude limit [] w)
        × (n ≤ 0 → last_known c key phase limit n w ≡ (err (timeout limit), w))
  unfolding last_known
  last_known_ends limit zero w = (λ h. absurd (omega arith), λ _. refl)
  last_known_ends limit (suc n) w = (λ _. refl, λ h. absurd (omega arith))

  follow_ends :
      (limit : Duration) (n : ℕ) (before : List (Pipeline F))
      (rest : List (Result Error (Pipeline F))) (w : W)
      → Other before
      → Decides rest
      → (length before + calls_left rest ≤ n
          → follow c key phase limit n (map ok before ++ rest) w ≡ conclude limit rest w)
        × (n < length before + calls_left rest
            → follow c key phase limit n (map ok before ++ rest) w ≡ (err (timeout limit), w))
  unfolding follow
  follow_ends limit zero [] [] w o e = (λ h. absurd (omega arith), λ _. refl)
  follow_ends limit zero [] (item ∷ rest) w o e = (λ h. absurd (omega arith), λ _. refl)
  follow_ends limit zero (q ∷ before) rest w o e = (λ h. absurd (omega arith), λ _. refl)
  follow_ends limit (suc n) [] [] w o e =
      let (f, g) = last_known_ends limit n w in (λ h. f (omega arith), λ h. g (omega arith))
  follow_ends limit (suc n) [] (err x ∷ rest) w o e = (λ _. refl, λ h. absurd (omega arith))
  follow_ends limit (suc n) [] (ok p ∷ rest) w o e =
      rw (beq_of_eq p.status.phase phase e) (λ _. refl, λ h. absurd (omega arith))
  follow_ends limit (suc n) (q ∷ before) rest w o e =
      let (f, g) = follow_ends limit n before rest w o.1 e in
      rw (o.0) (λ h. f (omega arith), λ h. g (omega arith))

  wait_within_ends :
      (limit : Duration) (n : ℕ) (w s : W) (before : List (Pipeline F))
      (rest : List (Result Error (Pipeline F)))
      → c.watch_pipeline key w ≡ (ok (map ok before ++ rest), s)
      → Other before
      → Decides rest
      → (length before + calls_left rest < n
          → wait_within c key phase limit n w ≡ conclude limit rest s)
        × (1 ≤ n
            → n ≤ length before + calls_left rest
            → wait_within c key phase limit n w ≡ (err (timeout limit), s))
  unfolding wait_within
  wait_within_ends limit zero w s before rest h o e =
      (λ k. absurd (omega arith), λ k l. absurd (omega arith))
  wait_within_ends limit (suc n) w s before rest h o e =
      let (f, g) = follow_ends limit n before rest s o e in
      let opened = bind_ok (c.watch_pipeline key) (follow c key phase limit n) h in
      (λ k. opened ∙ f (omega arith), λ k l. opened ∙ g (omega arith))

  -- If the watch opens in time, and yields pipelines in other phases before an item that decides or
  -- before its end, then the result of `wait_for_phase` is, where the time allows, that item, the
  -- pipeline in the phase or an error; at the end of the watch it is what one more read gives, a
  -- timeout if that is a pipeline in another phase. If the time is up before, it is the timeout.
  pub wait_for_phase_ends :
      (wait : Wait) (w s : W) (before : List (Pipeline F)) (rest : List (Result Error (Pipeline F)))
      → 1 ≤ wait.calls
      → c.watch_pipeline key w ≡ (ok (map ok before ++ rest), s)
      → Other before
      → Decides rest
      → wait_for_phase c key phase wait w ≡ (
          if ltb (length before + calls_left rest) wait.calls
          then conclude wait.limit rest s
          else (err (timeout wait.limit), s))
  unfolding wait_for_phase
  wait_for_phase_ends wait w s before rest some_time h o e =
      let (f, g) = wait_within_ends wait.limit wait.calls w s before rest h o e in
      elim (Bool-cases (ltb (length before + calls_left rest) wait.calls)) [
        | inl q ↦ rw q (f (ground (arith, q)))
        | inr q ↦ rw q (g some_time (ground (arith, q)))
      ]

  -- If the watch yields pipelines in other phases and then one in the phase that is waited for, then
  -- the first that has the phase is returned, if the time allows for it and for opening the watch;
  -- if the time is up before, the result is the timeout.
  pub wait_for_phase_first :
      (wait : Wait) (w s : W) (before : List (Pipeline F)) (p : Pipeline F)
      (rest : List (Result Error (Pipeline F)))
      → c.watch_pipeline key w ≡ (ok (map ok before ++ (ok p ∷ rest)), s)
      → Other before
      → p.status.phase ≡ phase
      → (length before + 2 ≤ wait.calls → wait_for_phase c key phase wait w ≡ (ok p, s))
        × (1 ≤ wait.calls
            → wait.calls ≤ length before + 1
            → wait_for_phase c key phase wait w ≡ (err (timeout wait.limit), s))
  unfolding wait_for_phase
  wait_for_phase_first wait w s before p rest h o e =
      let (f, g) = wait_within_ends wait.limit wait.calls w s before (ok p ∷ rest) h o e in
      (λ k. f (omega arith), g)
