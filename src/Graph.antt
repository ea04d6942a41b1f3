-- ===== src/Graph.antt =====
-- crates/nfctl-graph/src: pictures of topologies.
pub mod Shards
pub mod Scan
pub mod Mermaid
pub mod Import
pub mod View
