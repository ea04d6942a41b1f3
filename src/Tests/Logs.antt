-- ===== src/Tests/Logs.antt =====
-- Log tails on small inputs (crates/nfctl-core/src/service/logs.rs).
use nfctl.Common.{
  err, ◌+◌, ◌≤◌, none, true, ℕ, ◌≢◌, any, keep, contains, String, List, [], ◌∷◌, ◌++◌, none, ok,
  ◌≡◌, ◌↔◌, refl, map, Memᴰ, arith,
}
use nfctl.Error.{forbidden, Error}
use nfctl.Model.Ids.{ContainerName}
use nfctl.Model.Pods.{deleted, PodRef, applied, ContainerState}
use nfctl.Service.Logs.Task.Failures.{run_tail_gives_up}
use nfctl.Service.Logs.Containers.{Asked, mem-select_containers}
use nfctl.Service.Logs.Stale.{join_next_stale}
use nfctl.Service.Logs.{
  default_containers, Step, Key, spawn_each, spawn, stop_pod, abort_all, is_running, has_tail,
  select_containers, insert_seen, finish, all_containers, named, Supervisor, initial, on_event,
  event, Reachable, close, start, next, validate_named_containers,
}
use nfctl.Service.Logs.Owned.{stop_pod_iff}
use nfctl.Service.Logs.Single.{IsSingle, begin, after, Prompt-IsSingle}
use nfctl.Service.Logs.Effects.{Effects, on_event-Effects}
use nfctl.Service.Logs.Snapshot.{validate_named_iff}
use nfctl.Service.Logs.Task.{run_tail, TailTask, new_task, attend}
use nfctl.Service.Logs.Task.Boundary.{Entry}
use nfctl.Service.Logs.Task.Once.{line_of, serve, items}
use nfctl.Service.Logs.Task.Streams.{fresh, stream, sent_once}
use nfctl.Tests.Services.{sample_pod}

runs_events : Unit {0}
unfolding on_event spawn_each spawn stop_pod abort_all is_running has_tail select_containers
    insert_seen finish any keep contains
runs_events = tt

abbrev once_applied : Supervisor
once_applied = on_event all_containers (applied (sample_pod "p-a")) initial

reached : Reachable all_containers once_applied
reached = next start (event (applied (sample_pod "p-a")))

Prompt-IsSingle_example : IsSingle once_applied
Prompt-IsSingle_example =
    Prompt-IsSingle all_containers once_applied
      (after (event (applied (sample_pod "p-a"))) tt begin)

stop_pod_iff_example : Memᴰ (("p-a", "numa"), 0) (stop_pod "p-a" once_applied).running ↔ (
    Memᴰ (("p-a", "numa"), 0) once_applied.running
    × (¬ (Memᴰ (("p-a", "numa"), 0) once_applied.tails × (◌≡◌ {A = String} "p-a" "p-a"))))
stop_pod_iff_example = stop_pod_iff all_containers once_applied reached "p-a" ("p-a", "numa") 0

on_event-Effects_example :
    Effects all_containers
      (applied (sample_pod "p-a"))
      once_applied
      (on_event all_containers (applied (sample_pod "p-a")) once_applied)
on_event-Effects_example = on_event-Effects all_containers (applied (sample_pod "p-a")) once_applied

-- Applied again, the pod keeps its task.
same_task :
    (on_event all_containers (applied (sample_pod "p-a")) once_applied).running
    ≡ once_applied.running
unfolding runs_events
same_task = refl

names_pass : (validate_named_containers (sample_pod "p-a" ∷ []) (named ("numa" ∷ [])) ≡ ok tt) ↔ (
    (n : ContainerName)
    → Memᴰ n ("numa" ∷ [])
    → (p : PodRef) × (c : ContainerState) × Memᴰ p (sample_pod "p-a" ∷ [])
      × Memᴰ c p.containers
      × (c.name ≡ n))
names_pass = validate_named_iff (sample_pod "p-a" ∷ []) ("numa" ∷ [])

abbrev log : List Entry
log = (1, "a") ∷ (2, "b") ∷ (2, "b") ∷ (2, "c") ∷ []

abbrev display : Error → String
display _ = "failed"

-- The stream breaks between two equal lines of one instant.
abbrev broken : TailTask
broken = (attend display (ok (items ((1, "a") ∷ (2, "b") ∷ []))) (new_task none none)).0

sent_once_example :
    ((done : List Entry) × (rest : List Entry) × (log ≡ done ++ rest)
      × (broken.sent ≡ map line_of done))
    × ((attend display (ok (items (serve broken.since log))) broken).0.sent ≡ map line_of log)
sent_once_example =
    sent_once display none log broken refl (omega arith, (omega arith, (omega arith, tt)))
      (stream fresh ((1, "a") ∷ (2, "b") ∷ []) ((2, "b") ∷ (2, "c") ∷ []) refl)

abbrev numa : Key
numa = ("p-a", "numa")

-- The task ended, the pod was deleted and applied again, and the join is still to come.
abbrev stale : Supervisor
stale = record {
  tails = (numa, 1) ∷ [];
  running = (numa, 1) ∷ [];
  ended = numa ∷ [];
  seen = "p-a" ∷ [];
  spawned = 2;
}

-- When the watch ends, no task runs on.
closed_after : (close once_applied).running ≡ []
unfolding close
closed_after = refl

reached-stale :
    on_event all_containers
      (applied (sample_pod "p-a"))
      (on_event all_containers (deleted (sample_pod "p-a")) (finish numa 0 once_applied))
    ≡ stale
unfolding runs_events
reached-stale = refl

selected : Memᴰ "numa" (select_containers (sample_pod "p-a") all_containers)
unfolding runs_events
selected = Memᴰ.head refl

on : is_running (sample_pod "p-a") "numa" ≡ true
unfolding runs_events
on = refl

join_next_stale_example :
    (t : Supervisor) × (u : Supervisor) × Step all_containers stale t
    × Step all_containers t u
    × (m : ℕ) × (m ≢ 1)
    × Memᴰ (numa, m) u.running
    × Memᴰ (numa, 1) u.running
join_next_stale_example =
    join_next_stale all_containers (sample_pod "p-a") "numa" 1 stale [] [] refl (Memᴰ.head refl)
      (omega arith) refl selected on

run_tail_gives_up_example :
    (((run_tail display (map err (forbidden "a" ∷ [])) (new_task none none)).1 ≡ true)
      ↔ (5 ≤ 0 + 1))
    × ((attend display (ok (items log)) (new_task none none)).0.failures ≡ 0)
run_tail_gives_up_example =
    run_tail_gives_up display (forbidden "a" ∷ []) (new_task none none) (items log) (omega arith)

mem-select_containers_example :
    Memᴰ "numa" (select_containers (sample_pod "p-a") default_containers)
    ↔ Asked (sample_pod "p-a") default_containers "numa"
mem-select_containers_example = mem-select_containers (sample_pod "p-a") default_containers "numa"
