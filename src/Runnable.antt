-- ===== src/Runnable.antt =====
-- internal/domain/runnable: the immutable contract between builders, providers and verifiers.
pub mod Kinds
pub mod Model
pub mod Ident
pub mod Unique
pub mod Profile
pub mod Plan
pub mod Spec
pub mod Outcome
pub mod Action
pub mod Output
pub mod Backoff
pub mod Reap
