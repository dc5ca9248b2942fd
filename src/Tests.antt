-- ===== src/Tests.antt =====
-- Runs of the code on concrete inputs, and the theorems applied to concrete inputs.
mod Arguments
mod Variables
mod Dockerfile
mod Caching
mod Building
mod Images
mod Planning
mod Snapshots
mod Storage
mod Environments
mod Stepping
mod Registry
mod Pulling
mod Executing
