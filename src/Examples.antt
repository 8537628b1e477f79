-- ===== src/Examples.antt =====
-- The theorems applied to concrete inputs, and runs of the definitions.
mod Data
mod Contract
mod ReapQueue
mod Environments
mod Decisions
mod Rounds
mod Reconciliations
mod Verification
mod Tables
mod Histories
mod Runners
