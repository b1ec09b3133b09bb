-- ===== src/Batch.antt =====
-- The padded batch of a rollout: src/rollout/rollout_batch.cc and include/cverl/rollout/rollout_batch.h.
pub mod Defs
pub mod Cache
pub mod Rows
pub mod Texts
mod Tests
