-- ===== src/K8s/Pods.antt =====
-- crates/nfctl-k8s/src/dto/pod.rs: what the tails need of a pod. The wire types are those fields of the
-- Kubernetes types that the code reads.
use nfctl.Common.{
  ℕ, String, Bool, false, not, List, [], ◌∷◌, ◌++◌, Option, none, some, ◌==◌, string_eq, option_eq,
  or_else, map, find, keep, contains, to_option, is_ok, if◌then◌else◌,
}
use nfctl.Common.Int.{ℤ, pos, negsuc}
use nfctl.Model.Ids.{new_name, max_label, max_subdomain}
use nfctl.Model.Pods.{
  PodRef, PodPhase, ContainerState, parse_pod_phase, get_label, default_container_label,
}
use nfctl.K8s.Object.{Metadata, annotations_of}
use mathlib.Core.Option

pub record Container : Type 0 where
  pub name : String
  pub restart_policy : Option String

-- `running` tells whether the state of the container is there and has its running part.
pub record ContainerStatus : Type 0 where
  pub name : String
  pub running : Bool
  pub restart_count : ℤ

pub record PodSpec : Type 0 where
  pub containers : List Container
  pub init_containers : Option (List Container)

pub record PodStatus : Type 0 where
  pub phase : Option String
  pub container_statuses : Option (List ContainerStatus)
  pub init_container_statuses : Option (List ContainerStatus)

pub record Pod : Type 0 where
  pub metadata : Metadata
  pub spec : Option PodSpec
  pub status : Option PodStatus

abbrev pub inits_of : Option PodSpec → List Container
inits_of none = []
inits_of (some s) = or_else s.init_containers []

-- `init_names`: a container that is restarted always is a sidecar.
abbrev pub init_names : Option PodSpec → List String
init_names s = map (λ c. c.name) (keep (λ c. not (c.restart_policy == some "Always")) (inits_of s))

abbrev pub statuses_of : Option PodStatus → List ContainerStatus
statuses_of none = []
statuses_of (some s) = or_else s.container_statuses [] ++ or_else s.init_container_statuses []

abbrev pub declared_of : Option PodSpec → List String
declared_of none = []
declared_of (some s) = map (λ c. c.name) s.containers ++ map (λ c. c.name) (inits_of (some s))

-- `u32::try_from(s.restart_count).unwrap_or(0)`, of an `i32`.
abbrev pub restarts_of : ℤ → ℕ
restarts_of (pos n) = n
restarts_of (negsuc n) = 0

abbrev pub state_of : List String → String → Option ContainerStatus → ContainerState
state_of inits name none = record {
  name = name;
  running = false;
  restart_count = 0;
  is_init = contains inits name;
}
state_of inits name (some st) = record {
  name = name;
  running = st.running;
  restart_count = restarts_of st.restart_count;
  is_init = contains inits name;
}

-- The loop over the declared names; a name that is no container name is skipped. `new` returns the
-- string that it is given.
pub containers_of : List String → List ContainerStatus → List String → List ContainerState
containers_of inits statuses [] = []
containers_of inits statuses (name ∷ names) =
    let rest = containers_of inits statuses names in
    let state = state_of inits name (find (λ s. s.name == name) statuses) in
    if is_ok (new_name max_label name) then state ∷ rest else rest

abbrev pub pod_phase_of : Option PodStatus → PodPhase
pod_phase_of s =
    or_else (Option.map parse_pod_phase (Option.bind s (λ t. t.phase))) PodPhase.unknown

-- `into_pod_ref`
unfoldable pub into_pod_ref : Pod → Option PodRef
into_pod_ref pod = Option.bind pod.metadata.name λ raw.
    Option.bind (to_option (new_name max_subdomain raw)) λ name. some (record {
      name = name;
      phase = pod_phase_of pod.status;
      containers =
          containers_of (init_names pod.spec) (statuses_of pod.status) (declared_of pod.spec);
      default_container =
          Option.bind (get_label (annotations_of pod.metadata) default_container_label)
            (λ s. to_option (new_name max_label s));
    })
