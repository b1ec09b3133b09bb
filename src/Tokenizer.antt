-- ===== src/Tokenizer.antt =====
-- The byte tokenizer: src/text/byte_tokenizer.cc and include/cverl/text/byte_tokenizer.h.
pub mod Defs
pub mod Truncation
pub mod RoundTrip
mod Tests
