-- ===== src/Model/MonoVertex.antt =====
-- crates/nfctl-core/src/model/monovertex.rs
use nfctl.Common.{
  ℕ, String, Bool, List, Option, ◌&&◌, ◌≡◌, ◌↔◌, true, string_eq, PartialEq, ◌==◌, arith,
  if◌then◌else◌,
}
use nfctl.Model.Ids.{Namespace, PipelineName, join}
use nfctl.Model.Time.{Timestamp}
use nfctl.Model.Pipeline.{Condition, DesiredPhase}

pub record MonoVertexKey : Type 0 where
  pub namespace : Namespace
  pub name : PipelineName

abbrev pub monovertex_key_same : MonoVertexKey → MonoVertexKey → Bool
monovertex_key_same a b = a.namespace == b.namespace && a.name == b.name

pub monovertex_key_same_law : (a b : MonoVertexKey) → (monovertex_key_same a b ≡ true) ↔ (a ≡ b)
monovertex_key_same_law a b =
    ground (arith, string_eq.eq_law a.namespace b.namespace, string_eq.eq_law a.name b.name)

instance abbrev pub monovertex_key_eq : PartialEq MonoVertexKey
monovertex_key_eq = record { same = monovertex_key_same; eq_law = monovertex_key_same_law }

pub data MonoVertexPhase : Type 0 where
  unknown running paused failed : MonoVertexPhase

-- `MonoVertexPhase::as_str`
abbrev pub monovertex_phase_str : MonoVertexPhase → String
monovertex_phase_str unknown = "Unknown"
monovertex_phase_str running = "Running"
monovertex_phase_str paused = "Paused"
monovertex_phase_str failed = "Failed"

-- `MonoVertexPhase::parse_lenient`
pub parse_monovertex_phase : String → MonoVertexPhase
parse_monovertex_phase s =
    if s == "Running"
    then running
    else if s == "Paused"
    then paused
    else if s == "Failed"
    then failed
    else unknown

pub record MonoVertex : Type 0 where
  pub key : MonoVertexKey
  pub desired : DesiredPhase
  pub phase : MonoVertexPhase
  pub replicas : ℕ
  pub desired_replicas : Option ℕ
  pub ready_replicas : Option ℕ
  pub has_transformer : Bool
  pub has_map : Bool
  pub has_fallback : Bool
  pub message : Option String
  pub conditions : List Condition
  pub created : Option Timestamp

-- `MonoVertexKey::fmt`
unfoldable pub monovertex_key_str : MonoVertexKey → String
monovertex_key_str k = join k.namespace (join "/" k.name)
