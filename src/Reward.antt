-- ===== src/Reward.antt =====
-- The GSM8K rule reward: include/cverl/reward/gsm8k.h and src/reward/gsm8k.cc.
pub mod Defs
pub mod Strict
pub mod Tokens
pub mod Gold
pub mod Correct
mod Tests
