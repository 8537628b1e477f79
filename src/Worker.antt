-- ===== src/Worker.antt =====
-- internal/worker/runnable: the worker that executes the actions of runnables.
pub mod Verifier
pub mod Materializer
pub mod Reporting
pub mod Runner
