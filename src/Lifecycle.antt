-- ===== src/Lifecycle.antt =====
-- src/runtime/lifecycle.rs: the operation gate, the page version, the registry of pending
-- ownership, and the coordinator that runs a close once.
pub mod Gate
pub mod Version
pub mod Pending
pub mod Report
pub mod Notify
pub mod Coordinator
