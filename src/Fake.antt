-- ===== src/Fake.antt =====
-- crates/nfctl-core/src/fake/mod.rs: the cluster in memory. The mutex gives each call the state
-- alone, so a call is a function on the state. A watcher is what was sent to its channel of 64 and
-- whether its receiver is alive; of the senders that keep a stream open, only the number matters.
pub mod Pods
pub mod Daemons
pub mod Start
pub mod Snapshot
pub mod Port
pub mod Dry
pub mod Update
use nfctl.Common.{
  ℕ, suc, zero, ◌+◌, String, Bool, true, false, not, ◌&&◌, List, [], ◌∷◌, ◌++◌, map, Option, none,
  some, Result, ok, err, PartialEq, ◌==◌, string_eq, if◌then◌else◌, is_empty, keep, find, length,
  ltb,
}
use nfctl.Error.{Error, not_found, invalid, cluster}
use nfctl.Ports.{Io, give, fail}
use nfctl.Model.Ids.{
  VertexName, PipelineKey, pipeline_key_eq, PodName, ContainerName, Namespace, key_str,
}
use nfctl.Model.Pipeline.{Pipeline, PipelinePhase, DesiredPhase, ResumeStrategy}
use nfctl.Model.MonoVertex.{
  MonoVertex, MonoVertexKey, MonoVertexPhase, monovertex_key_eq, monovertex_key_str,
}
use nfctl.Model.Isb.{IsbService}
use nfctl.Model.Pods.{
  Labels, PodRef, PodEvent, applied, deleted, resync, resync_done, LogOptions, LogLine,
}

pub record LogScript : Type 0 where
  pub lines : List LogLine
  pub hang : Bool

pub record TailCall : Type 0 where
  pub pod : PodName
  pub container : ContainerName
  pub opts : LogOptions

pub record PodFixture : Type 0 where
  pub pod : PodRef
  pub logs : List (ContainerName × List LogLine)

pub record Watcher : Type 0 where
  pub sent : List PodEvent
  pub alive : Bool

pub record State (F : Type 0) : Type 0 where
  pub pipelines : List (Pipeline F)
  pub monovertices : List MonoVertex
  pub isbs : List IsbService
  pub manifests : List (String × Pipeline F)
  pub scaled : List (PipelineKey × VertexName × ℕ)
  pub pods : List PodRef
  pub pod_watchers : List Watcher
  pub scripts : List ((PodName × ContainerName) × List LogScript)
  pub tail_calls : List TailCall
  pub hung : ℕ
  pub fixture : Option (List PodFixture)

-- `ns.is_none_or(|ns| &p.key.namespace == ns)`
abbrev pub in_ns : Option Namespace → Namespace → Bool
in_ns none n = true
in_ns (some ns) n = n == ns

-- `iter_mut().find(p)` with the change `f`.
unfoldable pub update_first {ℓ} : {A : Type ℓ} → (A → Bool) → (A → A) → List A → List A
update_first p f [] = []
update_first p f (x ∷ xs) = let rest = update_first p f xs in if p x then f x ∷ xs else x ∷ rest

-- `find(...).ok_or_else(...)`
abbrev pub or_not_found {ℓ} : {A : Type ℓ} → (kind name : String) → Option A → Result Error A
or_not_found kind name none = err (not_found kind name)
or_not_found kind name (some a) = ok a

-- `try_send` on a watcher: it fails if the receiver is gone or the channel is full.
abbrev pub can_send : Watcher → Bool
can_send w = w.alive && ltb (length w.sent) 64

abbrev pub send : PodEvent → Watcher → Watcher
send ev w = record w { sent = w.sent ++ (ev ∷ []) }

-- What an event makes of the pod list.
unfoldable pub apply_event : PodEvent → List PodRef → List PodRef
apply_event (applied p) pods = keep (λ x. not (x.name == p.name)) pods ++ (p ∷ [])
apply_event (deleted p) pods = keep (λ x. not (x.name == p.name)) pods
apply_event resync pods = pods
apply_event resync_done pods = pods

unfoldable pub set_monovertex_desired : DesiredPhase → MonoVertex → MonoVertex
set_monovertex_desired desired m = record m {
  desired = desired;
  phase = elim desired [
    | DesiredPhase.running ↦ MonoVertexPhase.running
    | DesiredPhase.paused ↦ MonoVertexPhase.paused
  ];
}

module _ {F : Type 0} where
  unfoldable pub emit : PodEvent → State F → State F
  emit ev s = record s {
    pods = apply_event ev s.pods;
    pod_watchers = map (send ev) (keep can_send s.pod_watchers);
  }

  unfoldable pub list_pipelines : Option Namespace → Io (State F) (List (Pipeline F))
  list_pipelines ns s = (ok (keep (λ p. in_ns ns p.key.namespace) s.pipelines), s)

  unfoldable pub find_pipeline : PipelineKey → State F → Result Error (Pipeline F)
  find_pipeline key s = or_not_found "pipeline" (key_str key) (find (λ p. p.key == key) s.pipelines)

  unfoldable pub get_pipeline : PipelineKey → Io (State F) (Pipeline F)
  get_pipeline key s = (find_pipeline key s, s)

  unfoldable pub watch_pipeline : PipelineKey → Io (State F) (List (Result Error (Pipeline F)))
  watch_pipeline key s = elim (find_pipeline key s) [
    | ok p ↦ (ok (ok p ∷ []), s)
    | err e ↦ (err e, s)
  ]

  -- What the controller of the fake makes of a desired phase at once.
  pub set_desired : DesiredPhase → Option ResumeStrategy → Pipeline F → Pipeline F
  set_desired desired resume p = record p {
    spec = record p.spec { lifecycle = record p.spec.lifecycle { desired = desired } };
    meta = record p.meta { resume_strategy = resume };
    status = record p.status {
      phase = elim desired [
        | DesiredPhase.running ↦ PipelinePhase.running
        | DesiredPhase.paused ↦ PipelinePhase.paused
      ];
    };
  }

  pub set_lifecycle :
      PipelineKey → DesiredPhase → Option ResumeStrategy → Bool → Io (State F) (Unit {0})
  set_lifecycle key desired resume dry_run s = elim (find_pipeline key s) [
    | err e ↦ (err e, s)
    | ok p ↦ if dry_run then (ok tt, s) else (
      ok tt,
      record s {
        pipelines = update_first (λ p. p.key == key) (set_desired desired resume) s.pipelines;
      },
    )
  ]

  -- `HashMap::get` on the manifests.
  unfoldable pub get_manifest : List (String × Pipeline F) → String → Option (Pipeline F)
  get_manifest [] text = none
  get_manifest ((t, p) ∷ ms) text = if t == text then some p else get_manifest ms text

  unfoldable pub register_manifest : String → Pipeline F → State F → State F
  register_manifest text p s = record s { manifests = (text, p) ∷ s.manifests }

  unfoldable pub parse_manifest : String → Namespace → Io (State F) (Pipeline F)
  parse_manifest text default_ns s = elim (get_manifest s.manifests text) [
    | none ↦ (err (invalid "manifest" "<text>" "unregistered"), s)
    | some p ↦ (ok p, s)
  ]

  unfoldable pub apply_manifest : String → Namespace → Bool → Io (State F) (Pipeline F)
  apply_manifest text default_ns dry_run s = elim (get_manifest s.manifests text) [
    | none ↦ (err (invalid "manifest" "<text>" "unregistered"), s)
    | some p ↦ if dry_run then (ok p, s) else (
      ok p,
      record s { pipelines = keep (λ x. not (x.key == p.key)) s.pipelines ++ (p ∷ []) },
    )
  ]

  unfoldable pub scale_vertex : PipelineKey → VertexName → ℕ → Bool → Io (State F) (Unit {0})
  scale_vertex key v replicas dry_run s =
      if dry_run
      then (ok tt, s)
      else (ok tt, record s { scaled = s.scaled ++ ((key, v, replicas) ∷ []) })

  unfoldable pub list_isb : Option Namespace → Io (State F) (List IsbService)
  list_isb ns s = (ok (keep (λ i. in_ns ns i.namespace) s.isbs), s)

  unfoldable pub list_monovertices : Option Namespace → Io (State F) (List MonoVertex)
  list_monovertices ns s = (ok (keep (λ m. in_ns ns m.key.namespace) s.monovertices), s)

  unfoldable pub find_monovertex : MonoVertexKey → State F → Result Error MonoVertex
  find_monovertex key s =
      or_not_found "monovertex" (monovertex_key_str key) (find (λ m. m.key == key) s.monovertices)

  unfoldable pub get_monovertex : MonoVertexKey → Io (State F) MonoVertex
  get_monovertex key s = (find_monovertex key s, s)

  unfoldable pub set_monovertex_lifecycle :
      MonoVertexKey → DesiredPhase → Bool → Io (State F) (Unit {0})
  set_monovertex_lifecycle key desired dry_run s = elim (find_monovertex key s) [
    | err e ↦ (err e, s)
    | ok m ↦ if dry_run then (ok tt, s) else (
      ok tt,
      record s {
        monovertices =
            update_first (λ m. m.key == key) (set_monovertex_desired desired) s.monovertices;
      },
    )
  ]
