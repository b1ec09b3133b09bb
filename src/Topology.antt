-- ===== src/Topology.antt =====
-- Rank topology of the distributed runtime: include/cverl/distributed/topology.h and
-- src/distributed/topology.cc. `int64_t` values that the code checks for a sign are ℤ; ranks and
-- counts that have passed the checks are ℕ, and `pos_part` reads a checked ℤ as one.
pub mod Types
pub mod Radix
pub mod Valid
pub mod Ranks
pub mod Info
pub mod Groups
pub mod Layers
pub mod Sample
mod Tests
