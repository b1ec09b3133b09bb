-- ===== src/Base/Int.antt =====
-- Signed integers over the native numbers, under the library's names (its ℤ stands on another ℕ).
-- `int64_t` values that the code checks for a sign are read as these. An operation wraps only where
-- `wrap_int64` or `cast_int32` stands around it.
use Prim.Native.Nat.{ℕ, zero, suc, ◌+◌, ◌-◌, ◌*◌, ◌%◌, ◌^◌, ◌<◌}
use mathlib.Core.Path.{◌≡◌, refl}
use native.Mathlib.Omega.{arith}
use mathlib.Core.Bool.{Bool, true, ◌&&◌}
use cverl.Base.Tests.{ltb, leb, if◌then◌else◌, lt→ltb}

-- `negsuc n` is -(n + 1).
pub data ℤ : Type 0 where
  pos : ℕ → ℤ
  negsuc : ℕ → ℤ

abbrev pub pos_part : ℤ → ℕ
pos_part (pos n) = n
pos_part (negsuc n) = 0

abbrev pub neg_part : ℤ → ℕ
neg_part (pos n) = 0
neg_part (negsuc n) = suc n

-- The value -1.
abbrev pub minus_one : ℤ
minus_one = negsuc 0

-- a - b, as an integer.
abbrev pub sub_ℕ : ℕ → ℕ → ℤ
sub_ℕ a b = if leb b a then pos (a - b) else negsuc (b - a - 1)

abbrev neg_ℕ : ℕ → ℤ
neg_ℕ zero = pos 0
neg_ℕ (suc n) = negsuc n

infixl 70 ◌*ℤ◌
abbrev pub ◌*ℤ◌ : ℤ → ℤ → ℤ
pos a *ℤ pos b = pos (a * b)
pos a *ℤ negsuc b = neg_ℕ (a * suc b)
negsuc a *ℤ pos b = neg_ℕ (suc a * b)
negsuc a *ℤ negsuc b = pos (suc a * suc b)

abbrev pub ltb_ℤ : ℤ → ℤ → Bool
ltb_ℤ a b = ltb (pos_part a + neg_part b) (pos_part b + neg_part a)

abbrev pub leb_ℤ : ℤ → ℤ → Bool
leb_ℤ a b = leb (pos_part a + neg_part b) (pos_part b + neg_part a)

abbrev pub eqb_ℤ : ℤ → ℤ → Bool
eqb_ℤ a b = leb_ℤ a b && leb_ℤ b a

-- The int32_t and the int64_t of a bit pattern.
abbrev pub signed : ℕ → ℤ
signed v = if ltb v (2 ^ 31) then pos v else negsuc (2 ^ 32 - 1 - v)

abbrev pub signed_int64 : ℕ → ℤ
signed_int64 v = if ltb v (2 ^ 63) then pos v else negsuc (2 ^ 64 - 1 - v)

-- static_cast<int32_t> of an integer, in two's complement.
abbrev pub cast_int32 : ℤ → ℤ
cast_int32 (pos n) = signed (n % 2 ^ 32)
cast_int32 (negsuc n) = signed (2 ^ 32 - 1 - n % 2 ^ 32)

-- The int64_t that an operation leaves whose result is this integer. A result out of range is
-- undefined in C++; usual hardware keeps its lowest 64 bits.
abbrev pub wrap_int64 : ℤ → ℤ
wrap_int64 (pos n) = signed_int64 (n % 2 ^ 64)
wrap_int64 (negsuc n) = signed_int64 (2 ^ 64 - 1 - n % 2 ^ 64)

pub cast_int32-pos : (n : ℕ) → n < 2 ^ 31 → cast_int32 (pos n) ≡ pos n
cast_int32-pos n h =
    let kept : n % 2 ^ 32 ≡ n = omega arith in
    let small : ltb n (2 ^ 31) ≡ true = lt→ltb n (2 ^ 31) h in rw (kept, small) refl

pub wrap_int64-pos : (n : ℕ) → n < 2 ^ 63 → wrap_int64 (pos n) ≡ pos n
wrap_int64-pos n h =
    let kept : n % 2 ^ 64 ≡ n = omega arith in
    let small : ltb n (2 ^ 63) ≡ true = lt→ltb n (2 ^ 63) h in rw (kept, small) refl
