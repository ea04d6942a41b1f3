-- ===== src/Service.antt =====
-- crates/nfctl-core/src/service: the use cases.
pub mod Apply
pub mod Status
pub mod Lifecycle
pub mod Logs
pub mod Pipelines
