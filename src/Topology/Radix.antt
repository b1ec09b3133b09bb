-- ===== src/Topology/Radix.antt =====
-- Division facts behind the rank numbering: a number below a * m splits into a quotient below a
-- and a remainder below m, and back.
use cverl.Base.{ℕ, ◌+◌, ◌*◌, ◌/◌, ◌%◌, ◌≤◌, ◌<◌, ◌≡◌, arith}

pub div_mod : (r m : ℕ) → (r / m) * m + r % m ≡ r
div_mod r m = grind arith

pub mod_lt : (r m : ℕ) → 0 < m → r % m < m
mod_lt r m h = grind arith

pub div_lt : (r a m : ℕ) → r < a * m → r / m < a
div_lt r a m h = grind arith

pub digits_lt : (q x a m : ℕ) → q < a → x < m → q * m + x < a * m
digits_lt q x a m hq hx = grind arith

pub div_digits : (q x m : ℕ) → x < m → (q * m + x) / m ≡ q
div_digits q x m h = grind arith

pub mod_digits : (q x m : ℕ) → x < m → (q * m + x) % m ≡ x
mod_digits q x m h = grind arith

-- A block of s that starts at a multiple of s lies within any multiple of s.
pub block_le : (x s n : ℕ) → 0 < s → x < n → n % s ≡ 0 → (x / s) * s + s ≤ n
block_le x s n hs hx hn = grind arith
