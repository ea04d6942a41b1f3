-- ===== src/Daemon.antt =====
-- crates/nfctl-daemon/src: the client of a pipeline's daemon.
pub mod Dto
pub mod Client
pub mod Ends
pub mod Calls
