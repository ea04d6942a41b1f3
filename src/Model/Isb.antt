-- ===== src/Model/Isb.antt =====
-- crates/nfctl-core/src/model/isb.rs
use nfctl.Common.{ℕ, String, Bool, ◌==◌, string_eq, if◌then◌else◌}
use nfctl.Model.Ids.{Namespace, IsbName}

pub data IsbPhase : Type 0 where
  unknown pending running failed deleting : IsbPhase

-- `IsbPhase::parse_lenient`
unfoldable pub parse_isb_phase : String → IsbPhase
parse_isb_phase s =
    if s == "Pending"
    then pending
    else if s == "Running"
    then running
    else if s == "Failed"
    then failed
    else if s == "Deleting"
    then deleting
    else unknown

pub record IsbService : Type 0 where
  pub namespace : Namespace
  pub name : IsbName
  pub version : String
  pub replicas : ℕ
  pub persistent : Bool
  pub phase : IsbPhase
  pub healthy : Bool
