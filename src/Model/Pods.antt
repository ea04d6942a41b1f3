-- ===== src/Model/Pods.antt =====
-- crates/nfctl-core/src/model/pods.rs
use nfctl.Common.{
  ℕ, String, Bool, true, false, List, [], ◌∷◌, Option, none, some, ◌≡◌, ◌↔◌, PartialEq, ◌==◌,
  string_eq, option_eq, arith, all, if◌then◌else◌,
}
use nfctl.Model.Ids.{join, VertexName, PipelineName, PodName, ContainerName}
use nfctl.Model.Time.{Timestamp}

pub data PodPhase : Type 0 where
  pending running succeeded failed unknown : PodPhase

abbrev pub pod_phase_same : PodPhase → PodPhase → Bool
pod_phase_same pending pending = true
pod_phase_same running running = true
pod_phase_same succeeded succeeded = true
pod_phase_same failed failed = true
pod_phase_same unknown unknown = true
pod_phase_same _ _ = false

pub pod_phase_same_law : (a b : PodPhase) → (pod_phase_same a b ≡ true) ↔ (a ≡ b)
pod_phase_same_law a b = ground arith

instance abbrev pub pod_phase_eq : PartialEq PodPhase
pod_phase_eq = record { same = pod_phase_same; eq_law = pod_phase_same_law }

-- `PodPhase::parse_lenient`
pub parse_pod_phase : String → PodPhase
parse_pod_phase s =
    if s == "Pending"
    then pending
    else if s == "Running"
    then running
    else if s == "Succeeded"
    then succeeded
    else if s == "Failed"
    then failed
    else unknown

pub record ContainerState : Type 0 where
  pub name : ContainerName
  pub running : Bool
  pub restart_count : ℕ
  pub is_init : Bool

pub record PodRef : Type 0 where
  pub name : PodName
  pub phase : PodPhase
  pub containers : List ContainerState
  pub default_container : Option ContainerName

pub data PodEvent : Type 0 where
  applied deleted : PodRef → PodEvent
  resync resync_done : PodEvent

pub record LogOptions : Type 0 where
  pub follow : Bool
  pub since : Option Timestamp
  pub tail_lines : Option ℕ

pub record LogLine : Type 0 where
  pub at : Option Timestamp
  pub text : String

pub record TaggedLine : Type 0 where
  pub pod : PodName
  pub container : ContainerName
  pub line : LogLine

-- A label selector or a set of labels: a `BTreeMap`, as the list of its entries in key order.
abbrev pub Labels : Type 0
Labels = List (String × String)

-- `BTreeMap::get`
unfoldable pub get_label : Labels → String → Option String
get_label [] k = none
get_label ((j, w) ∷ m) k = if j == k then some w else get_label m k

abbrev pub component : String
component = "app.kubernetes.io/component"

abbrev pub pipeline_label : String
pipeline_label = "numaflow.numaproj.io/pipeline-name"

abbrev pub vertex_label : String
vertex_label = "numaflow.numaproj.io/vertex-name"

abbrev pub monovertex_label : String
monovertex_label = "numaflow.numaproj.io/mono-vertex-name"

abbrev pub instance_label : String
instance_label = "numaflow.numaproj.io/instance"

abbrev pub pause_timestamp : String
pause_timestamp = "numaflow.numaproj.io/pause-timestamp"

abbrev pub resume_strategy_label : String
resume_strategy_label = "numaflow.numaproj.io/resume-strategy"

abbrev pub default_container_label : String
default_container_label = "kubectl.kubernetes.io/default-container"

abbrev pub main_container : ContainerName
main_container = "numa"

-- The entries of `Selector::vertex_pods`, which come in key order.
unfoldable pub vertex_pods : PipelineName → Option VertexName → Labels
vertex_pods pipeline none = (component, "vertex") ∷ (pipeline_label, pipeline) ∷ []
vertex_pods pipeline (some v) =
    (component, "vertex") ∷ (pipeline_label, pipeline) ∷ (vertex_label, v) ∷ []

unfoldable pub monovertex_pods : PipelineName → Labels
monovertex_pods name = (component, "mono-vertex") ∷ (monovertex_label, name) ∷ []

unfoldable pub monovertex_daemon_pods : PipelineName → Labels
monovertex_daemon_pods name = (component, "mono-vertex-daemon") ∷ (monovertex_label, name) ∷ []

unfoldable pub daemon_pods : PipelineName → Labels
daemon_pods pipeline = (component, "daemon") ∷ (pipeline_label, pipeline) ∷ []

-- `Selector::matches`
unfoldable pub matches : Labels → Labels → Bool
matches selector labels = all (λ e. get_label labels e.0 == some e.1) selector

-- `Selector::fmt`
unfoldable pub selector_str : Labels → String
selector_str [] = ""
selector_str ((k, v) ∷ []) = join k (join "=" v)
selector_str ((k, v) ∷ e ∷ m) = join k (join "=" (join v (join "," (selector_str (e ∷ m)))))
