-- ===== src/Sharding.antt =====
-- Flat optimizer shards: src/distributed/optimizer_sharding.cc and its header.
pub mod Defs
pub mod Tiles
pub mod Flatten
pub mod Apply
pub mod Gather
pub mod Ranges
pub mod Metadata
pub mod Owners
pub mod Loads
pub mod Fair
pub mod Balance
mod Tests
