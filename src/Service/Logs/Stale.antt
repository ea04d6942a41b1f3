-- ===== src/Service/Logs/Stale.antt =====
-- A join that comes late (`run` in crates/nfctl-core/src/service/logs.rs).
use nfctl.Common.{
  ℕ, ◌≤◌, ◌<◌, Bool, true, false, not, ◌&&◌, List, [], ◌∷◌, ◌++◌, ◌≡◌, ◌≢◌, ◌⊎◌, inl, inr, refl, ap,
  arith, Memᴰ, if◌then◌else◌, string_eq, pair_eq,
}
use mathlib.Core.List.Memᴰ
use nfctl.Model.Ids.{ContainerName}
use nfctl.Model.Pods.{PodRef, applied}
use nfctl.Service.Logs.{
  ContainerSelect, select_containers, Key, Supervisor, has_tail, insert_seen, spawn, is_running,
  spawn_each, is_over, on_event, join_next, Step, event, join,
}
use nfctl.Service.Logs.Tails.{mem-remove}
use nfctl.Service.Logs.Events.{spawn_each-tails}

-- Tasks that run go on, and the numbers grow.
record Grows (s t : Supervisor) : Type 0 where
  pub running : (e : Key × ℕ) → Memᴰ e s.running → Memᴰ e t.running
  pub spawned : s.spawned ≤ t.spawned
  -- A handle is an old one, or that of a new task, which runs.
  pub handles :
      (k : Key) (m : ℕ)
      → Memᴰ (k, m) t.tails
      → Memᴰ (k, m) s.tails ⊎ (s.spawned ≤ m × Memᴰ (k, m) t.running)

Grows-refl : (s : Supervisor) → Grows s s
Grows-refl s = record { running = λ e m. m; spawned = omega arith; handles = λ k m h. inl h }

Grows-trans : (s t u : Supervisor) → Grows s t → Grows t u → Grows s u
Grows-trans s t u g h = record {
  running = λ e m. h.running e (g.running e m);
  spawned = omega (arith, g.spawned, h.spawned);
  handles = λ k m x. elim (h.handles k m x) [
    | inr y ↦ inr (omega (arith, g.spawned, y.0), y.1)
    | inl y ↦ elim (g.handles k m y) [ inl z ↦ inl z | inr z ↦ inr (z.0, h.running (k, m) z.1) ]
  ];
}

spawn-Grows : (j : Key) (s : Supervisor) → Grows s (spawn j s)
unfolding spawn
spawn-Grows j s = record {
  running = λ e m. Memᴰ.tail m;
  spawned = omega arith;
  handles = λ k m x. elim (Memᴰ.cases_cons x) [
    | inl e ↦ inr (omega (arith, ap (λ y. y.1) e), Memᴰ.head e)
    | inr r ↦ inl ((mem-remove j k m s.tails).0 r).0
  ];
}

if-Grows : (b : Bool) (j : Key) (s : Supervisor) → Grows s (if b then spawn j s else s)
if-Grows true j s = spawn-Grows j s
if-Grows false j s = Grows-refl s

spawn_each-Grows :
    (pod : PodRef) (cs : List ContainerName) (s : Supervisor) → Grows s (spawn_each pod cs s)
unfolding spawn_each
spawn_each-Grows pod [] s = Grows-refl s
spawn_each-Grows pod (c ∷ cs) s =
    Grows-trans s _ _
      (if-Grows (is_running pod c && not (has_tail (pod.name, c) s.tails)) (pod.name, c) s)
      (spawn_each-Grows pod cs _)

second_task :
    (sel : ContainerSelect) (pod : PodRef) (c : ContainerName) (n : ℕ) (s : Supervisor)
    → (before after : List Key) → Memᴰ ((pod.name, c), n) s.running
    → n < s.spawned
    → is_over pod ≡ false
    → Memᴰ c (select_containers pod sel)
    → is_running pod c ≡ true
    → let u = on_event sel (applied pod) (join_next (pod.name, c) (before ++ after) s) in
      (m : ℕ) × (m ≢ n) × Memᴰ ((pod.name, c), m) u.running × Memᴰ ((pod.name, c), n) u.running
unfolding on_event join_next
second_task sel pod c n s before after runs small up selected on =
    let k : Key = (pod.name, c) in
    let joined = join_next k (before ++ after) s in
    let t : Supervisor = record joined { seen = insert_seen pod.name joined.seen } in
    let grown = spawn_each-Grows pod (select_containers pod sel) t in
    let (m, has) =
      (spawn_each-tails pod (select_containers pod sel) t k).1 (inr (refl, selected, on)) in
    rw (up, on_event)
      (elim (grown.handles k m has) [
        | inl old ↦ absurd (((mem-remove k k m s.tails).0 old).1 refl)
        | inr (late, new) ↦
            (m, λ q. absurd (omega (arith, late, small, q)), new, grown.running (k, n) runs)
      ])

-- If a task of a container runs while the join of an earlier task of the same container is still to
-- come, the supervisor can take the join and then an event that applies the pod, and after that two
-- tasks of the container run.
pub join_next_stale :
    (sel : ContainerSelect) (pod : PodRef) (c : ContainerName) (n : ℕ) (s : Supervisor)
    → (before after : List Key) → s.ended ≡ before ++ ((pod.name, c) ∷ after)
    → Memᴰ ((pod.name, c), n) s.running
    → n < s.spawned
    → is_over pod ≡ false
    → Memᴰ c (select_containers pod sel)
    → is_running pod c ≡ true
    → (t : Supervisor) × (u : Supervisor) × Step sel s t
      × Step sel t u
      × (m : ℕ) × (m ≢ n)
      × Memᴰ ((pod.name, c), m) u.running
      × Memᴰ ((pod.name, c), n) u.running
join_next_stale sel pod c n s before after e runs small up selected on =
    let k : Key = (pod.name, c) in
    let t = join_next k (before ++ after) s in
    let (m, ne, new, old) = second_task sel pod c n s before after runs small up selected on in
    (t, on_event sel (applied pod) t, join before k after e, event (applied pod), m, ne, new, old)
