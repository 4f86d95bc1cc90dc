-- ===== src/TaskRuntime.antt =====
-- internal/taskruntime: the Task Runtime.
pub mod Entity
pub mod Store
pub mod Ports
pub mod Claim
pub mod Termination
pub mod Startup
pub mod Recover
