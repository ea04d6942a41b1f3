-- ===== src/K8s.antt =====
-- crates/nfctl-k8s/src: the custom resources as they come over the wire, and their conversion.
pub mod Object
pub mod Dto
pub mod Pipeline
pub mod MonoVertex
pub mod Isb
pub mod Pods
pub mod Cluster
