-- ===== src/Dataset.antt =====
-- Datasets: src/data/hf_dataset.cc and include/cverl/data/hf_dataset.h.
pub mod Defs
pub mod Shell
pub mod Command
pub mod Nul
pub mod Words
pub mod Rows
mod Tests
