-- ===== src/Model.antt =====
-- crates/nfctl-core/src/model: the domain types.
pub mod Ids
pub mod Time
pub mod Topology
pub mod Runtime
pub mod Pipeline
pub mod MonoVertex
pub mod Workload
pub mod Isb
pub mod Pods
