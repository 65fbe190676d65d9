-- ===== src/Scheduler.antt =====
-- internal/scheduler/scheduler.go: what to do to which service, as a pure function.
pub mod Types
pub mod Demand
pub mod Eviction
pub mod Planning
