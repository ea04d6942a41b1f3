-- ===== src/Error.antt =====
-- crates/nfctl-core/src/error.rs. A boxed source is the text that it displays.
use nfctl.Common.{ℕ, String, List}
use nfctl.Model.Ids.{ContainerName}
use nfctl.Model.Time.{Duration}
use nfctl.Model.Topology.{TopologyError}

pub data Error : Type 0 where
  not_found : (kind name : String) → Error
  container_not_found : (name : ContainerName) (available : List ContainerName) → Error
  forbidden : String → Error
  timeout : Duration → Error
  cluster : String → Error
  daemon : String → Error
  invalid : (kind name reason : String) → Error
  topology : TopologyError → Error
  check_failed : String → Error
  usage : String → Error
  unimplemented : String → Error

-- `Error::exit_code`
unfoldable pub exit_code : Error → ℕ
exit_code (unimplemented _) = 4
exit_code (usage _) = 2
exit_code (invalid _ _ _) = 3
exit_code (topology _) = 3
exit_code (check_failed _) = 3
exit_code _ = 1
