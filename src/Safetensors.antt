-- ===== src/Safetensors.antt =====
-- The safetensors files of the models: src/model/safetensors_writer.cc writes one, and
-- src/model/hf_model_loader.cc with include/cverl/model/hf_model_loader.h reads the files of a
-- directory.
pub mod Scanner
pub mod Tensors
pub mod Writer
pub mod Config
pub mod Loader
pub mod Decimal
pub mod Strings
pub mod Arrays
pub mod Header
pub mod Padding
pub mod Entries
pub mod Lookup
pub mod Place
pub mod Load
pub mod RoundTrip
mod Tests
