-- ===== src/Service/Logs.antt =====
-- crates/nfctl-core/src/service/logs.rs: which containers to tail, and the supervisor that keeps one
-- tail per container. A task is a number; a key's abort handle is the number of its task.
pub mod Snapshot
pub mod Tails
pub mod Events
pub mod Containers
pub mod Stale
pub mod Owned
pub mod Effects
pub mod Single
pub mod Task
use nfctl.Common.{
  ℕ, suc, String, Bool, true, false, not, ◌&&◌, ◌||◌, List, [], ◌∷◌, ◌++◌, map, flatten, Option,
  none, some, Result, ok, err, PartialEq, ◌==◌, string_eq, pair_eq, eqb, if◌then◌else◌, is_empty,
  keep, find, any, all, contains, Memᴰ, ◌≡◌,
}
use nfctl.Error.{Error, container_not_found}
use nfctl.Model.Ids.{PodName, ContainerName}
use nfctl.Model.Pods.{
  PodRef, PodPhase, pod_phase_eq, ContainerState, PodEvent, applied, deleted, resync, resync_done,
  main_container,
}

pub data ContainerSelect : Type 0 where
  default_containers all_containers : ContainerSelect
  named : List ContainerName → ContainerSelect

-- The closure `find` of `select_containers`: the name, if the pod has such a container.
unfoldable pub has_container : PodRef → ContainerName → Bool
has_container pod n = any (λ c. c.name == n) pod.containers

-- The default container, if it is another one than those picked and the pod has it.
unfoldable pub add_default : PodRef → Option ContainerName → List ContainerName → List ContainerName
add_default pod none v = v
add_default pod (some d) v = if not (contains v d) && has_container pod d then v ++ (d ∷ []) else v

unfoldable pub select_containers : PodRef → ContainerSelect → List ContainerName
select_containers pod all_containers = map (λ c. c.name) (keep (λ c. not c.is_init) pod.containers)
select_containers pod (named names) = keep (has_container pod) names
select_containers pod default_containers =
    add_default pod pod.default_container
      (if has_container pod main_container then main_container ∷ [] else [])

-- The names of all containers of the pods; the `BTreeSet` orders them for the error's text.
unfoldable pub available : List PodRef → List ContainerName
available pods = flatten (map (λ p. map (λ c. c.name) p.containers) pods)

unfoldable pub validate_named_containers : List PodRef → ContainerSelect → Result Error (Unit {0})
validate_named_containers pods default_containers = ok tt
validate_named_containers pods all_containers = ok tt
validate_named_containers pods (named requested) =
    elim (find (λ n. not (contains (available pods) n)) requested) [
      | some n ↦ err (container_not_found n (available pods))
      | none ↦ ok tt
    ]

abbrev pub Key : Type 0
Key = PodName × ContainerName

-- `Supervisor`: the handles by key, the tasks that run, the keys
-- of those that ended by themselves and wait to be joined (an aborted task joins without a key), the
-- pods seen since the last `Resync`, and the number of tasks spawned.
pub record Supervisor : Type 0 where
  pub tails : List (Key × ℕ)
  pub running : List (Key × ℕ)
  pub ended : List Key
  pub seen : List PodName
  pub spawned : ℕ

-- `HashMap::contains_key`
unfoldable pub has_tail : Key → List (Key × ℕ) → Bool
has_tail k tails = any (λ e. e.0 == k) tails

-- `HashSet::insert`
unfoldable pub insert_seen : PodName → List PodName → List PodName
insert_seen p seen = if contains seen p then seen else p ∷ seen

-- The tasks that `abort` has not hit.
unfoldable pub abort_all : List (Key × ℕ) → List (Key × ℕ) → List (Key × ℕ)
abort_all hit tasks = keep (λ t. not (any (λ h. eqb h.1 t.1) hit)) tasks

-- `Supervisor::stop_pod`
unfoldable pub stop_pod : PodName → Supervisor → Supervisor
stop_pod pod s = record s {
  tails = keep (λ e. not (e.0.0 == pod)) s.tails;
  running = abort_all (keep (λ e. e.0.0 == pod) s.tails) s.running;
}

-- `Supervisor::spawn`: `insert` replaces the handle of the key, if there is one.
unfoldable pub spawn : Key → Supervisor → Supervisor
spawn k s = record s {
  tails = (k, s.spawned) ∷ keep (λ e. not (e.0 == k)) s.tails;
  running = (k, s.spawned) ∷ s.running;
  spawned = suc s.spawned;
}

-- `pod.containers.iter().any(|s| s.name == c && s.running)`
unfoldable pub is_running : PodRef → ContainerName → Bool
is_running pod c = any (λ x. x.name == c && x.running) pod.containers

-- The loop over the containers of an applied pod.
unfoldable pub spawn_each : PodRef → List ContainerName → Supervisor → Supervisor
spawn_each pod [] s = s
spawn_each pod (c ∷ cs) s =
    spawn_each pod cs (
      if is_running pod c && not (has_tail (pod.name, c) s.tails) then spawn (pod.name, c) s else s)

-- The loop of `ResyncDone` over the pods that were not seen.
pub stop_each : List PodName → Supervisor → Supervisor
stop_each [] s = s
stop_each (p ∷ ps) s = stop_each ps (stop_pod p s)

-- `matches!(pod.phase, Succeeded | Failed)`
abbrev pub is_over : PodRef → Bool
is_over pod = pod.phase == PodPhase.succeeded || pod.phase == PodPhase.failed

-- `Supervisor::on_event`
unfoldable pub on_event : ContainerSelect → PodEvent → Supervisor → Supervisor
on_event sel (applied pod) s =
    let seen = record s { seen = insert_seen pod.name s.seen } in
    if is_over pod then stop_pod pod.name seen else spawn_each pod (select_containers pod sel) seen
on_event sel (deleted pod) s = stop_pod pod.name s
on_event sel resync s = record s { seen = [] }
on_event sel resync_done s =
    stop_each (map (λ e. e.0.0) (keep (λ e. not (contains s.seen e.0.0)) s.tails)) s

-- A task ends by itself and gives its key.
unfoldable pub finish : Key → ℕ → Supervisor → Supervisor
finish k n s = record s {
  running = keep (λ t. not (eqb t.1 n)) s.running;
  ended = s.ended ++ (k ∷ []);
}

-- A join of an ended task in `run`: `tails.remove(&key)`.
pub join_next : Key → List Key → Supervisor → Supervisor
join_next k rest s = record s { tails = keep (λ e. not (e.0 == k)) s.tails; ended = rest }

-- The end of `run`, when the watch ends or its reader has gone: `set.abort_all()`.
unfoldable pub close : Supervisor → Supervisor
close s = record s { running = [] }

-- The steps of `run`: an event of the watch, an error of the watch, which changes nothing, the end
-- of a task, and the join of a task that ended,
-- in any order of those that ended.
pub data Step (sel : ContainerSelect) : Supervisor → Supervisor → Type 0 where
  event : {s : Supervisor} (ev : PodEvent) → Step sel s (on_event sel ev s)
  missed : {s : Supervisor} (e : Error) → Step sel s s
  ends : {s : Supervisor} (k : Key) (n : ℕ) → Memᴰ (k, n) s.running → Step sel s (finish k n s)
  join :
      {s : Supervisor} (before : List Key) (k : Key) (after : List Key)
      → s.ended ≡ before ++ (k ∷ after)
      → Step sel s (join_next k (before ++ after) s)

abbrev pub initial : Supervisor
initial = record { tails = []; running = []; ended = []; seen = []; spawned = 0 }

pub data Reachable (sel : ContainerSelect) : Supervisor → Type 0 where
  start : Reachable sel initial
  next : {s t : Supervisor} → Reachable sel s → Step sel s t → Reachable sel t
