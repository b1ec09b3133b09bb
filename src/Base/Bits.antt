-- ===== src/Base/Bits.antt =====
-- The bitwise or of a number whose low digits are zero with a number that has only such digits.
use Prim.Native.Nat.{
  ℕ, zero, suc, ◌+◌, ◌*◌, ◌/◌, ◌%◌, ◌^◌, ◌≤◌, ◌<◌, max, bit_or, digits, bit_or-bitwise,
}
use mathlib.Core.Path.{◌≡◌, refl, ap, sym, ◌∙◌}
use native.Mathlib.Nat.{pow-suc}
use mathlib.Core.Bool.{Bool, true, ◌&&◌}
use native.Mathlib.Omega.{arith}

abbrev or_within : ℕ → ℕ → ℕ → ℕ
or_within count a b = digits (λ b. b) max count a b

-- Any count of digits that covers the first number gives the same.
or_within_same : (k l a b : ℕ) → a ≤ k → a ≤ l → or_within k a b ≡ or_within l a b
or_within_same zero zero a b ha hb = refl
or_within_same zero (suc l) zero b ha hb = refl
or_within_same (suc k) zero zero b ha hb = refl
or_within_same (suc k) (suc l) zero b ha hb = refl
or_within_same zero l (suc a) b ha hb = absurd (omega arith)
or_within_same (suc k) zero (suc a) b ha hb = absurd (omega arith)
or_within_same (suc k) (suc l) (suc a) b ha hb =
    ap (λ (x : ℕ). x * 2 + max (suc a % 2) (b % 2))
      (or_within_same k l (suc a / 2) (b / 2) (omega arith) (omega arith))

zero-bit_or : (b : ℕ) → bit_or 0 b ≡ b
zero-bit_or b = bit_or-bitwise 0 b

bit_or_halves : (a b : ℕ) → bit_or a b ≡ bit_or (a / 2) (b / 2) * 2 + max (a % 2) (b % 2)
bit_or_halves zero b = omega (arith, zero-bit_or b, zero-bit_or (b / 2))
bit_or_halves (suc a) b =
    let all = bit_or-bitwise (suc a) b in
    let half = bit_or-bitwise (suc a / 2) (b / 2) in
    omega (
      arith,
      all,
      half,
      or_within_same a (suc a / 2) (suc a / 2) (b / 2) (omega arith) (omega arith),
    )

bit_or-zero : (bound a : ℕ) → a ≤ bound → bit_or a 0 ≡ a
bit_or-zero bound zero h = zero-bit_or 0
bit_or-zero zero (suc a) h = absurd (omega arith)
bit_or-zero (suc bound) (suc a) h =
    omega (arith, bit_or_halves (suc a) 0, bit_or-zero bound (suc a / 2) (omega arith))

pub bit_or-add : (k a b : ℕ) → b < 2 ^ k → bit_or (a * 2 ^ k) b ≡ a * 2 ^ k + b
bit_or-add zero a b h =
    let one : 2 ^ 0 ≡ 1 = refl in
    let none : b ≡ 0 = omega (arith, rw one at h) in
    rw (none, one) (bit_or-zero (a * 1) (a * 1) (omega arith) ∙ omega arith)
bit_or-add (suc k) a b h =
    rw (pow-suc 2 k, double a (2 ^ k))
      (halves (a * 2 ^ k) (b / 2) (bit_or-add k a (b / 2) (half (2 ^ k) (rw (pow-suc 2 k) at h)))
        refl)
  where
    double : (a p : ℕ) → a * (p * 2) ≡ a * p * 2
    double a p = omega arith

    half : (p : ℕ) → b < p * 2 → b / 2 < p
    half p h = omega arith

    halves : (x y : ℕ) → bit_or x y ≡ x + y → y ≡ b / 2 → bit_or (x * 2) b ≡ x * 2 + b
    halves x y ih e =
        let front : x * 2 / 2 ≡ x = omega arith in
        let even : x * 2 % 2 ≡ 0 = omega arith in
        bit_or_halves (x * 2) b ∙ rw (front, even, sym e, ih) (omega arith)

-- A test that holds of every number below a bound, and what it says of one of them.
unfoldable pub holds_below : ℕ → (ℕ → Bool) → Bool
holds_below zero test = true
holds_below (suc n) test = test n && holds_below n test

pub holds_below_at :
    (n : ℕ) (test : ℕ → Bool) (x : ℕ) → holds_below n test ≡ true → x < n → test x ≡ true
unfolding holds_below
holds_below_at zero test x all h = absurd (omega arith)
holds_below_at (suc n) test x all h = ground (arith, holds_below_at n test x)
