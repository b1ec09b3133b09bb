-- ===== src/Context.antt =====
-- Context parallelism: src/distributed/context_parallel.cc and its header.
pub mod Defs
pub mod Schedule
pub mod Ring
pub mod Slices
mod Tests
