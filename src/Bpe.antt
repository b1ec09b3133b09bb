-- ===== src/Bpe.antt =====
-- The byte-level BPE tokenizer: src/text/hf_bpe_tokenizer.cc.
pub mod Utf8
pub mod Coding
pub mod Table
pub mod Merge
pub mod Greedy
pub mod Defs
pub mod Inverse
pub mod Spell
pub mod Segments
pub mod RoundTrip
pub mod Limit
pub mod Latin
mod Tests
