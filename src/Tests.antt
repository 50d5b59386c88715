-- ===== src/Tests.antt =====
-- Test data, runs of the program on it, and each property applied at a concrete input.
pub mod World
pub mod Runs
mod Examples
mod Program
mod Workers
mod Interleavings
mod Lifecycle
