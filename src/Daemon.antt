-- ===== src/Daemon.antt =====
-- src/daemon: the state that the daemon keeps for each session, its tabs, dialogs and consoles.
pub mod Error
pub mod Console
pub mod Protocol
pub mod Dialog
pub mod Session
pub mod State
pub mod Targets
pub mod Close
pub mod Persist
pub mod Selection
pub mod NetworkWatch
