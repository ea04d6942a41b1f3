-- ===== src/Fake/Pods.antt =====
-- The pods and the logs of the fake cluster (crates/nfctl-core/src/fake/mod.rs and fixture.rs).
use nfctl.Common.{
  ℕ, suc, zero, Bool, true, not, ◌&&◌, List, [], ◌∷◌, ◌++◌, map, Option, none, some, Result, ok,
  err, ◌==◌, string_eq, pair_eq, if◌then◌else◌, find,
}
use mathlib.Core.Option
use nfctl.Error.{Error, not_found, cluster}
use nfctl.Ports.{Io}
use nfctl.Model.Ids.{PodName, ContainerName, Namespace, new_name, max_subdomain, join}
use nfctl.Model.Pods.{
  Labels, PodRef, PodEvent, applied, deleted, resync, resync_done, LogOptions, LogLine,
}
use nfctl.Fake.{State, LogScript, PodFixture, emit}

abbrev pub take {ℓ} : {A : Type ℓ} → ℕ → List A → List A
take zero xs = []
take (suc n) [] = []
take (suc n) (x ∷ xs) = x ∷ take n xs

-- `HashMap::get` on the logs of a pod.
unfoldable pub get_logs :
    List (ContainerName × List LogLine) → ContainerName → Option (List LogLine)
get_logs [] c = none
get_logs ((d, ls) ∷ logs) c = if d == c then some ls else get_logs logs c

-- `Fixture::pod_logs`
unfoldable pub pod_logs : List PodFixture → PodName → ContainerName → Option (List LogLine)
pod_logs fs pod c = Option.bind (find (λ f. f.pod.name == pod) fs) (λ f. get_logs f.logs c)

abbrev pub Scripts : Type 0
Scripts = List ((PodName × ContainerName) × List LogScript)

-- `script`: push at the back of the key's queue.
unfoldable pub push_script : Scripts → PodName × ContainerName → LogScript → Scripts
push_script [] k x = (k, x ∷ []) ∷ []
push_script ((j, q) ∷ m) k x =
    let rest = push_script m k x in if j == k then (j, q ++ (x ∷ [])) ∷ m else (j, q) ∷ rest

-- `get_mut(key).and_then(pop_front)`
unfoldable pub pop_script : Scripts → PodName × ContainerName → Option LogScript × Scripts
pop_script [] k = (none, [])
pop_script ((j, q) ∷ m) k =
    let (x, rest) = pop_script m k in
    if j == k
    then elim q [ [] ↦ (none, (j, []) ∷ m) | y ∷ ys ↦ (some y, (j, ys) ∷ m) ]
    else (x, (j, q) ∷ rest)

-- The script of one `tail_logs`: what was queued, else what the fixture has, else nothing.
unfoldable pub script_for : Option LogScript → Option (List LogLine) → Bool → LogScript
script_for (some x) lines follow = x
script_for none (some ls) follow = record { lines = ls; hang = true }
script_for none none follow = record { lines = []; hang = not follow }

-- The replay of the current pods in a new channel of 64; what does not fit is dropped.
unfoldable pub replay : List PodRef → List PodEvent
replay pods = take 64 ((resync ∷ map applied pods) ++ (resync_done ∷ []))

abbrev pub find_pod : List PodRef → PodName → Option PodRef
find_pod pods n = find (λ p. p.name == n) pods

-- `PodName::new(format!("{pod}-r"))`: where it fails the code panics, which is the error here.
unfoldable pub replacement_name : PodName → Result Error PodName
replacement_name pod = elim (new_name max_subdomain (join pod "-r")) [
  | ok n ↦ ok n
  | err _ ↦ err (cluster "panic")
]

-- `or_else` on the fixture.
abbrev pub fixture_logs : Option (List PodFixture) → PodName → ContainerName → Option (List LogLine)
fixture_logs none pod c = none
fixture_logs (some fs) pod c = pod_logs fs pod c

module _ {F : Type 0} where
  unfoldable pub script : PodName → ContainerName → LogScript → State F → State F
  script pod c x s = record s { scripts = push_script s.scripts (pod, c) x }

  unfoldable pub list_pods : Namespace → Labels → Io (State F) (List PodRef)
  list_pods ns selector s = (ok s.pods, s)

  unfoldable pub watch_pods : Namespace → Labels → Io (State F) (List (Result Error PodEvent))
  watch_pods ns selector s = (
    ok (map ok (replay s.pods)),
    record s {
      pod_watchers = s.pod_watchers ++ (record { sent = replay s.pods; alive = true } ∷ []);
    },
  )

  -- The loop of `delete_pods`.
  unfoldable pub delete_each : List PodName → State F → State F
  delete_each [] s = s
  delete_each (n ∷ ns) s =
      delete_each ns (elim (find_pod s.pods n) [ none ↦ s | some pod ↦ emit (deleted pod) s ])

  unfoldable pub delete_pods : Namespace → Labels → Bool → Io (State F) (List PodName)
  delete_pods ns selector dry_run s =
      let names = map (λ p. p.name) s.pods in
      if dry_run then (ok names, s) else (ok names, delete_each names s)

  unfoldable pub replace_pod : PodRef → PodName → State F → State F
  replace_pod old name s = emit (applied (record old { name = name })) (emit (deleted old) s)

  unfoldable pub delete_pod : Namespace → PodName → Bool → Io (State F) (Unit {0})
  delete_pod ns pod dry_run s = elim (find_pod s.pods pod) [
    | none ↦ (err (not_found "pod" pod), s)
    | some old ↦ if dry_run then (ok tt, s) else elim (replacement_name pod) [
      | err e ↦ (err e, emit (deleted old) s)
      | ok name ↦ (ok tt, replace_pod old name s)
    ]
  ]

  unfoldable pub tail_logs :
      Namespace → PodName → ContainerName → LogOptions → Io (State F) (List (Result Error LogLine))
  tail_logs ns pod c opts s =
      let (queued, scripts) = pop_script s.scripts (pod, c) in
      let x = script_for queued (fixture_logs s.fixture pod c) opts.follow in
      (
        ok (map ok x.lines),
        record s {
          scripts = scripts;
          tail_calls = s.tail_calls ++ (record { pod = pod; container = c; opts = opts } ∷ []);
          hung = if x.hang && opts.follow then suc s.hung else s.hung;
        },
      )
