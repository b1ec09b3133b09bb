-- ===== src/Bpe/Utf8.antt =====
-- utf8_append and utf8_decode. `x & (2 ^ k - 1)` is a remainder, a shift a product or a quotient.
use Prim.Native.Nat.{bit_and, bit_or}
use cverl.Base.{
  ℕ, zero, suc, ◌*◌, ◌/◌, ◌%◌, ◌^◌, Bool, true, false, ◌&&◌, Option, none, some, List, [], ◌∷◌, ltb,
  leb, ◌==◌, if◌then◌else◌, length, get_elem?, drop, Bytes,
}

-- The bytes that are appended for a code point.
unfoldable pub utf8_append : ℕ → Bytes
utf8_append cp =
    if leb cp 0x7F
    then (cp % 256) ∷ []
    else if leb cp 0x7FF
    then (bit_or 0xC0 (cp / 2 ^ 6) % 256) ∷ (bit_or 0x80 (cp % 64) % 256) ∷ []
    else if leb cp 0xFFFF
    then (bit_or 0xE0 (cp / 2 ^ 12) % 256)
      ∷ (bit_or 0x80 (cp / 2 ^ 6 % 64) % 256)
      ∷ (bit_or 0x80 (cp % 64) % 256)
      ∷ []
    else (bit_or 0xF0 (cp / 2 ^ 18) % 256)
      ∷ (bit_or 0x80 (cp / 2 ^ 12 % 64) % 256)
      ∷ (bit_or 0x80 (cp / 2 ^ 6 % 64) % 256)
      ∷ (bit_or 0x80 (cp % 64) % 256)
      ∷ []

-- `s[i]` in range.
abbrev pub byte_at : Bytes → ℕ → ℕ
byte_at s i = elim (get_elem? s i) [ none ↦ 0 | some b ↦ b ]

-- One round of the loop of utf8_decode: the code point, and how far it goes on.
unfoldable pub decode_one : Bytes → Option (ℕ × ℕ)
decode_one s =
    let b0 = byte_at s 0 in
    if ltb b0 0x80
    then some (b0, 1)
    else if (bit_and b0 0xE0 == 0xC0) && ltb 1 (length s)
    then some (bit_or (b0 % 32 * 2 ^ 6) (byte_at s 1 % 64), 2)
    else if (bit_and b0 0xF0 == 0xE0) && ltb 2 (length s)
    then some (bit_or (bit_or (b0 % 16 * 2 ^ 12) (byte_at s 1 % 64 * 2 ^ 6)) (byte_at s 2 % 64), 3)
    else if (bit_and b0 0xF8 == 0xF0) && ltb 3 (length s)
    then some (
      bit_or
          (bit_or (bit_or (b0 % 8 * 2 ^ 18) (byte_at s 1 % 64 * 2 ^ 12)) (byte_at s 2 % 64 * 2 ^ 6))
          (byte_at s 3 % 64),
      4,
    )
    else none

-- The round's effect, before the rounds behind it: `return false`, or a push.
abbrev pub push_code : Option (ℕ × ℕ) → (ℕ → List ℕ × Bool) → List ℕ × Bool
push_code none go_on = ([], false)
push_code (some (cp, advance)) go_on = let rest = go_on advance in (cp ∷ rest.0, rest.1)

-- while (i < s.size()), over the bytes from i on; the fuel is their number.
unfoldable pub utf8_loop : ℕ → Bytes → List ℕ × Bool
utf8_loop zero s = ([], true)
utf8_loop (suc fuel) [] = ([], true)
utf8_loop (suc fuel) (b ∷ s) =
    push_code (decode_one (b ∷ s)) (λ advance. utf8_loop fuel (drop advance (b ∷ s)))

-- The code points that `out` gets, and the value that is returned.
unfoldable pub utf8_decode : Bytes → List ℕ × Bool
utf8_decode s = utf8_loop (length s) s
