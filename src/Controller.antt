-- ===== src/Controller.antt =====
-- internal/controller/runtimeenvironment: the lifecycle of a runtime environment, which the
-- reconciler moves from phase to phase, and the reaper, which tears its resources down.
pub mod Environment
pub mod State
pub mod Reaper
pub mod Reconciler
