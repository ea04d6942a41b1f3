-- ===== src/Service/Logs/Single.antt =====
-- When each container has one task (`run` in crates/nfctl-core/src/service/logs.rs).
use nfctl.Common.{
  ℕ, true, false, not, ◌&&◌, List, [], ◌∷◌, ◌≡◌, inl, inr, refl, ap, subst, arith, Memᴰ, keep,
  mem-keep, Bool-cases, ◌==◌, string_eq, pair_eq, eqb, any, any-of_mem, eqb_iff,
}
use mathlib.Core.List.Memᴰ
use nfctl.Model.Ids.{PodName, ContainerName}
use nfctl.Model.Pods.{PodRef, PodEvent, applied, deleted, resync, resync_done}
use nfctl.Service.Logs.{
  ContainerSelect, Key, Supervisor, has_tail, insert_seen, abort_all, stop_pod, spawn, is_running,
  spawn_each, stop_each, is_over, on_event, finish, join_next, initial, Step, event, missed, ends,
  join,
}
use nfctl.Service.Logs.Tails.{Functional, mem-remove, step-Functional}
use nfctl.Service.Logs.Events.{HasTail, has_tail_iff}

-- Each task that runs has its handle.
abbrev pub Handled : Supervisor → Type 0
Handled s = (k : Key) (n : ℕ) → Memᴰ (k, n) s.running → Memᴰ (k, n) s.tails

-- A join is on time if no task of its container runs.
abbrev pub OnTime : {sel : ContainerSelect} {s t : Supervisor} → Step sel s t → Type 0
OnTime {s = s} (join before k rest e) = (n : ℕ) → ¬ Memᴰ (k, n) s.running
OnTime _ = Unit

-- The states that are reached by joins on time, and by any other steps.
pub data Prompt (sel : ContainerSelect) : Supervisor → Type 0 where
  begin : Prompt sel initial
  after : {s t : Supervisor} (step : Step sel s t) → OnTime step → Prompt sel s → Prompt sel t

stop_pod-Handled : (p : PodName) (s : Supervisor) → Handled s → Handled (stop_pod p s)
unfolding stop_pod abort_all
stop_pod-Handled p s h k n m =
    let of_pod = λ (e : Key × ℕ). e.0.0 == p in
    let hit = keep of_pod s.tails in
    let (old, free) =
      (mem-keep (λ (t : Key × ℕ). not (any (λ x. eqb x.1 t.1) hit)) s.running (k, n)).0 m in
    let has = h k n old in
    (mem-keep (λ (e : Key × ℕ). not (of_pod e)) s.tails (k, n)).1 (
      has,
      elim (Bool-cases (k.0 == p)) [
        | inr f ↦ ap not f
        | inl t ↦
            let aborted : any (λ (x : Key × ℕ). eqb x.1 n) hit ≡ true =
              any-of_mem (λ (x : Key × ℕ). eqb x.1 n) hit {a = (k, n)}
                ((mem-keep of_pod s.tails (k, n)).1 (has, t)) ((eqb_iff n n).1 refl) in
            absurd (cc (free, ap not aborted))
      ],
    )

stop_each-Handled : (ps : List PodName) (s : Supervisor) → Handled s → Handled (stop_each ps s)
unfolding stop_each
stop_each-Handled [] s h = h
stop_each-Handled (p ∷ ps) s h = stop_each-Handled ps (stop_pod p s) (stop_pod-Handled p s h)

spawn-Handled : (j : Key) (s : Supervisor) → (¬ HasTail j s) → Handled s → Handled (spawn j s)
unfolding spawn
spawn-Handled j s out h k n m = elim (Memᴰ.cases_cons m) [
  | inl e ↦ Memᴰ.head e
  | inr r ↦
      let has = h k n r in
      Memᴰ.tail
        ((mem-remove j k n s.tails).1 (has, λ q. out (n, subst (λ y. Memᴰ (y, n) s.tails) q has)))
]

spawn_each-Handled :
    (pod : PodRef) (cs : List ContainerName) (s : Supervisor)
    → Handled s
    → Handled (spawn_each pod cs s)
unfolding spawn_each
spawn_each-Handled pod [] s h = h
spawn_each-Handled pod (c ∷ cs) s h =
    let k : Key = (pod.name, c) in
    elim (Bool-cases (is_running pod c && not (has_tail k s.tails))) [
      | inr q ↦ rw (q, spawn_each) (spawn_each-Handled pod cs s h)
      | inl q ↦
          let free : has_tail k s.tails ≡ false = ground (arith, q) in
          let out : ¬ HasTail k s = λ x. cc ((has_tail_iff k s.tails).1 x, free) in
          rw (q, spawn_each) (spawn_each-Handled pod cs (spawn k s) (spawn-Handled k s out h))
    ]

on_event-Handled :
    (sel : ContainerSelect) (ev : PodEvent) (s : Supervisor)
    → Handled s
    → Handled (on_event sel ev s)
unfolding on_event
on_event-Handled sel (applied pod) s h =
    let u : Supervisor = record s { seen = insert_seen pod.name s.seen } in
    elim (Bool-cases (is_over pod)) [
      | inl q ↦ rw (q, on_event) (stop_pod-Handled pod.name u h)
      | inr q ↦ rw (q, on_event) (spawn_each-Handled pod _ u h)
    ]
on_event-Handled sel (deleted pod) s h = stop_pod-Handled pod.name s h
on_event-Handled sel resync s h = h
on_event-Handled sel resync_done s h = stop_each-Handled _ s h

step-Handled :
    {sel : ContainerSelect} {s t : Supervisor} (step : Step sel s t)
    → OnTime step
    → Handled s
    → Handled t
unfolding finish join_next
step-Handled {s = s} (event ev) on h k n m = on_event-Handled _ ev s h k n m
step-Handled (missed e) on h k n m = h k n m
step-Handled {s = s} (ends j i r) on h k n m = h k n ((mem-keep _ s.running (k, n)).0 m).0
step-Handled {s = s} (join before j rest e) idle h k n m =
    (mem-remove j k n s.tails).1 (h k n m, λ q. idle n (subst (λ x. Memᴰ (x, n) s.running) q m))

Prompt-Owned :
    (sel : ContainerSelect) (s : Supervisor) → Prompt sel s → Handled s × Functional s.tails
Prompt-Owned sel _ begin = (λ k n m. elim m [ ], λ k m n a b. elim a [ ])
Prompt-Owned sel _ (after step on p) =
    let (h, f) = Prompt-Owned sel _ p in (step-Handled step on h, step-Functional step f)

-- One task for each container, and its handle is kept.
pub record IsSingle (s : Supervisor) : Type 0 where
  pub handled : (k : Key) (n : ℕ) → Memᴰ (k, n) s.running → Memᴰ (k, n) s.tails
  pub one : (k : Key) (m n : ℕ) → Memᴰ (k, m) s.running → Memᴰ (k, n) s.running → m ≡ n

-- However events, ends of tasks and joins follow each other, if no join is taken while another task of
-- its container runs, then no container has two tasks that run, and each task that runs has its handle,
-- by which it can be aborted.
pub Prompt-IsSingle : (sel : ContainerSelect) (s : Supervisor) → Prompt sel s → IsSingle s
Prompt-IsSingle sel s p =
    let (handled, functional) = Prompt-Owned sel s p in
    record {
      handled = handled;
      one = λ k m n a b. functional k m n (handled k m a) (handled k n b);
    }
