-- ===== src/Service/Logs/Tails.antt =====
-- Which keys the supervisor of crates/nfctl-core/src/service/logs.rs keeps a tail for.
use nfctl.Common.{
  ℕ, Bool, true, false, not, ◌&&◌, List, [], ◌∷◌, ◌≡◌, ◌≢◌, ◌↔◌, inl, inr, sym, ap, ◌∙◌, Memᴰ,
  if◌then◌else◌, keep, mem-keep, mem-keep_ne, Bool-cases, ◌==◌, string_eq, pair_eq,
}
use mathlib.Core.List.Memᴰ
use nfctl.Model.Ids.{PodName, ContainerName}
use nfctl.Model.Pods.{PodRef, PodEvent, applied, deleted, resync, resync_done}
use nfctl.Service.Logs.{
  ContainerSelect, Key, Supervisor, has_tail, stop_pod, spawn, is_running, spawn_each, stop_each,
  is_over, on_event, finish, join_next, Step, event, missed, ends, join,
}

-- At most one handle for each key.
abbrev pub Functional : List (Key × ℕ) → Type 0
Functional xs = (k : Key) (m n : ℕ) → Memᴰ (k, m) xs → Memᴰ (k, n) xs → m ≡ n

keep-Functional :
    (p : Key × ℕ → Bool) (xs : List (Key × ℕ)) → Functional xs → Functional (keep p xs)
keep-Functional p xs f k m n a b =
    f k m n ((mem-keep p xs (k, m)).0 a).0 ((mem-keep p xs (k, n)).0 b).0

pub mem-remove :
    (k j : Key) (n : ℕ) (xs : List (Key × ℕ))
    → Memᴰ (j, n) (keep (λ e. not (e.0 == k)) xs) ↔ (Memᴰ (j, n) xs × (j ≢ k))
mem-remove k j n xs = mem-keep_ne (λ (e : Key × ℕ). e.0) k xs (j, n)

spawn-Functional : (k : Key) (s : Supervisor) → Functional s.tails → Functional (spawn k s).tails
unfolding spawn
spawn-Functional k s f j m n a b = elim (Memᴰ.cases_cons a) [
  | inl p ↦ elim (Memᴰ.cases_cons b) [
    | inl q ↦ ap (λ x. x.1) (p ∙ sym q)
    | inr q ↦ absurd (((mem-remove k j n s.tails).0 q).1 (ap (λ x. x.0) p))
  ]
  | inr p ↦ elim (Memᴰ.cases_cons b) [
    | inl q ↦ absurd (((mem-remove k j m s.tails).0 p).1 (ap (λ x. x.0) q))
    | inr q ↦ f j m n ((mem-remove k j m s.tails).0 p).0 ((mem-remove k j n s.tails).0 q).0
  ]
]

stop_pod-Functional :
    (p : PodName) (s : Supervisor) → Functional s.tails → Functional (stop_pod p s).tails
unfolding stop_pod
stop_pod-Functional p s f = keep-Functional _ s.tails f

spawn_each-Functional :
    (pod : PodRef) (cs : List ContainerName) (s : Supervisor)
    → Functional s.tails
    → Functional (spawn_each pod cs s).tails
unfolding spawn_each
spawn_each-Functional pod [] s f = f
spawn_each-Functional pod (c ∷ cs) s f = spawn_each-Functional pod cs _ (
    if_Functional (is_running pod c && not (has_tail (pod.name, c) s.tails)) (spawn (pod.name, c) s)
      (spawn-Functional (pod.name, c) s f))
  where
    if_Functional :
        (b : Bool) (t : Supervisor) → Functional t.tails → Functional (if b then t else s).tails
    if_Functional true t g = g
    if_Functional false t g = f

stop_each-Functional :
    (ps : List PodName) (s : Supervisor) → Functional s.tails → Functional (stop_each ps s).tails
unfolding stop_each
stop_each-Functional [] s f = f
stop_each-Functional (p ∷ ps) s f =
    stop_each-Functional ps (stop_pod p s) (stop_pod-Functional p s f)

on_event-Functional :
    (sel : ContainerSelect) (ev : PodEvent) (s : Supervisor)
    → Functional s.tails
    → Functional (on_event sel ev s).tails
unfolding on_event
on_event-Functional sel (applied pod) s f = elim (Bool-cases (is_over pod)) [
  | inl q ↦ rw (q, on_event) (stop_pod-Functional pod.name _ f)
  | inr q ↦ rw (q, on_event) (spawn_each-Functional pod _ _ f)
]
on_event-Functional sel (deleted pod) s f = stop_pod-Functional pod.name s f
on_event-Functional sel resync s f = f
on_event-Functional sel resync_done s f = stop_each-Functional _ s f

pub step-Functional :
    {sel : ContainerSelect} {s t : Supervisor}
    → Step sel s t
    → Functional s.tails
    → Functional t.tails
unfolding finish join_next
step-Functional (event ev) f = on_event-Functional _ ev _ f
step-Functional (missed e) f = f
step-Functional (ends k n m) f = f
step-Functional (join before k after e) f = keep-Functional _ _ f
