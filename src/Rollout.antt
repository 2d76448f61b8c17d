-- ===== src/Rollout.antt =====
-- internal/rollout: the scheduler, the controller and the reaper of the control plane.
pub mod Floats
pub mod Scheduler
pub mod Controller
pub mod Reaper
