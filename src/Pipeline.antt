-- ===== src/Pipeline.antt =====
-- The 1F1B pipeline schedule: include/cverl/distributed/pipeline.h and
-- src/distributed/pipeline.cc. The four functions that move tensors between stages stand for the
-- calls of `Collectives` that they make; a tensor is a value of a parameter type.
pub mod Defs
pub mod Schedule
pub mod Channels
pub mod Stages
pub mod Neighbours
mod Tests
