-- ===== src/Safetensors/Decimal.antt =====
-- A number that `oss << n` writes is read back by `integer`.
use cverl.Base.{
  ℕ, zero, suc, ◌+◌, ◌-◌, ◌*◌, ◌/◌, ◌%◌, ◌^◌, ◌≤◌, ◌<◌, ◌≡◌, refl, ◌∙◌, Bool, true, false, [], ◌∷◌,
  ◌++◌, pos, ltb, leb, ◌==◌, Bytes, is_digit, is_space, All, All-append, ok, arith,
}
use cverl.Safetensors.Scanner.{eof, skip_ws, digit_run, digits_value, stoll, integer}
use cverl.Safetensors.Writer.{decimal_loop, decimal}

abbrev pub IsDigit : ℕ → Type 0
IsDigit d = is_digit d ≡ true

mod_digit : (n : ℕ) → n % 10 < 10
mod_digit n = omega arith

character_of : (d : ℕ) → d < 10 → IsDigit (b'0' + d)
character_of d h = ground arith

pub decimal_loop-IsDigit : (fuel n : ℕ) → All IsDigit (decimal_loop fuel n)
unfolding decimal_loop
decimal_loop-IsDigit zero n = tt
decimal_loop-IsDigit (suc fuel) n = by_test (ltb n 10) refl (decimal_loop-IsDigit fuel (n / 10))
  where
    by_test :
        (t : Bool)
        → ltb n 10 ≡ t
        → All IsDigit (decimal_loop fuel (n / 10))
        → All IsDigit (elim t [
          | true ↦ (b'0' + n) ∷ []
          | false ↦ decimal_loop fuel (n / 10) ++ ((b'0' + n % 10) ∷ [])
        ])
    by_test true e rest = (character_of n (ground arith), tt)
    by_test false e rest =
        All-append IsDigit (decimal_loop fuel (n / 10)) ((b'0' + n % 10) ∷ []) rest
          (character_of (n % 10) (mod_digit n), tt)

eof-append : (xs ys : Bytes) (y : ℕ) → eof (xs ++ (y ∷ ys)) ≡ false
eof-append [] ys y = refl
eof-append (x ∷ xs) ys y = refl

pub eof-decimal : (fuel n : ℕ) → eof (decimal_loop (suc fuel) n) ≡ false
unfolding decimal_loop
eof-decimal fuel n = by_test (ltb n 10)
  where
    by_test :
        (t : Bool)
        → eof (elim t [
          | true ↦ (b'0' + n) ∷ []
          | false ↦ decimal_loop fuel (n / 10) ++ ((b'0' + n % 10) ∷ [])
        ])
          ≡ false
    by_test true = refl
    by_test false = eof-append (decimal_loop fuel (n / 10)) [] (b'0' + n % 10)

digits_value-append :
    (v : ℕ) (ds : Bytes) (d : ℕ)
    → digits_value v (ds ++ (d ∷ [])) ≡ digits_value v ds * 10 + (d - b'0')
unfolding digits_value
digits_value-append v [] d = refl
digits_value-append v (x ∷ ds) d = digits_value-append (v * 10 + (x - b'0')) ds d

digits_value-decimal : (fuel n : ℕ) → n < fuel → digits_value 0 (decimal_loop fuel n) ≡ n
unfolding decimal_loop digits_value
digits_value-decimal zero n h = absurd (omega arith)
digits_value-decimal (suc fuel) n h =
    by_test (ltb n 10) refl (λ less. digits_value-decimal fuel (n / 10) less)
  where
    by_test :
        (t : Bool)
        → ltb n 10 ≡ t
        → (n / 10 < fuel → digits_value 0 (decimal_loop fuel (n / 10)) ≡ n / 10)
        → digits_value 0 (elim t [
          | true ↦ (b'0' + n) ∷ []
          | false ↦ decimal_loop fuel (n / 10) ++ ((b'0' + n % 10) ∷ [])
        ])
          ≡ n
    by_test true e shorter = omega arith
    by_test false e shorter =
        let large : 10 ≤ n = ground arith in
        let rest = shorter (omega arith) in
        digits_value-append 0 (decimal_loop fuel (n / 10)) (b'0' + n % 10) ∙ rw rest (omega arith)

digit_run-append :
    (ds rest : Bytes) (c : ℕ)
    → All IsDigit ds
    → is_digit c ≡ false
    → digit_run (ds ++ (c ∷ rest)) ≡ (ds, c ∷ rest)
unfolding digit_run
digit_run-append [] rest c h k = rw k
digit_run-append (d ∷ ds) rest c h k = rw (h.0, digit_run-append ds rest c h.1 k)

pub digit_is_no_space : (d : ℕ) → IsDigit d → is_space d ≡ false
digit_is_no_space d h = ground arith

digit_is_no_sign : (d : ℕ) → IsDigit d → (d == b'-') ≡ false
digit_is_no_sign d h = ground arith

integer-digits :
    (ds rest : Bytes) (c : ℕ)
    → eof ds ≡ false
    → All IsDigit ds
    → is_digit c ≡ false
    → digits_value 0 ds < 2 ^ 63
    → integer (ds ++ (c ∷ rest)) ≡ ok (pos (digits_value 0 ds), c ∷ rest)
unfolding integer skip_ws stoll
integer-digits [] rest c some_digit h k small = cc
integer-digits (d ∷ ds) rest c some_digit h k small =
    let fits : leb (2 ^ 63) (digits_value 0 (d ∷ ds)) ≡ false = ground arith in
    rw (digit_is_no_space d h.0, digit_is_no_sign d h.0, digit_run-append (d ∷ ds) rest c h k, fits)

-- A number that fits is read back, up to a character behind it that is no digit.
pub integer-decimal :
    (n c : ℕ) (rest : Bytes)
    → n < 2 ^ 63
    → is_digit c ≡ false
    → integer (decimal n ++ (c ∷ rest)) ≡ ok (pos n, c ∷ rest)
integer-decimal n c rest small k =
    let value = digits_value-decimal (suc n) n (omega arith) in
    integer-digits (decimal n) rest c (eof-decimal n n) (decimal_loop-IsDigit (suc n) n) k
      (rw value small)
    ∙ rw value
