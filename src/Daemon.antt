-- ===== src/Daemon.antt =====
-- internal/daemon/daemon.go: the daemon's state, its operations, and the control operations.
pub mod Overlap
pub mod State
pub mod Execute
pub mod Reports
pub mod Handlers
pub mod Steps
pub mod Rules
pub mod Allowed
pub mod Claims
pub mod Valid
pub mod Reached
pub mod Resting
pub mod Waits
pub mod Effects
pub mod Dry
pub mod Run
