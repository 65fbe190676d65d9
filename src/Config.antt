-- ===== src/Config.antt =====
-- internal/config: the configuration.
pub mod Types
pub mod Bounds
pub mod Unit
pub mod Validate
pub mod Validated
pub mod Accepted
pub mod Merge
pub mod Files
pub mod Load
