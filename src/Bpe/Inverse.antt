-- ===== src/Bpe/Inverse.antt =====
-- uc_to_byte inverts byte_to_unicode, and leaves ASCII as it is.
use cverl.Base.{
  ℕ, ◌<◌, ◌%◌, ◌≡◌, refl, ap, Bool, true, false, Option, none, some, [], ◌∷◌, ltb, leb, ◌==◌,
  ==_iff, holds_below, holds_below_at, arith,
}
use cverl.Bpe.Utf8.{utf8_append}
use cverl.Bpe.Table.{build_byte_to_unicode_table, byte_to_unicode, uc_to_byte}
use cverl.Bpe.Defs.{decode_code}

unfoldable pub is_byte : Option ℕ → ℕ → Bool
is_byte none b = false
is_byte (some c) b = c == b

pub is_byte-some : (o : Option ℕ) (b : ℕ) → is_byte o b ≡ true → o ≡ some b
unfolding is_byte
is_byte-some none b h = cc
is_byte-some (some c) b h = ap some ((==_iff c b).0 h)

-- Each of the 256 entries of the table is a code point below 512 that uc_to_byte takes back.
pub uc_to_byte-byte_to_unicode : (b : ℕ) → b < 256 → uc_to_byte (byte_to_unicode b) ≡ some b
unfolding holds_below is_byte uc_to_byte byte_to_unicode build_byte_to_unicode_table
uc_to_byte-byte_to_unicode b h =
    is_byte-some (uc_to_byte (byte_to_unicode b)) b
      (holds_below_at 256 (λ x. is_byte (uc_to_byte (byte_to_unicode x)) x) b refl h)

small_code : (n : ℕ) → ltb n 512 ≡ true → n < 0x200000
small_code n h = ground arith

pub byte_to_unicode_small : (b : ℕ) → b < 256 → byte_to_unicode b < 0x200000
unfolding holds_below byte_to_unicode build_byte_to_unicode_table
byte_to_unicode_small b h =
    small_code (byte_to_unicode b) (holds_below_at 256 (λ x. ltb (byte_to_unicode x) 512) b refl h)

pub utf8_append-ascii : (c : ℕ) → c < 128 → utf8_append c ≡ c ∷ []
unfolding utf8_append
utf8_append-ascii c h =
    let narrow : leb c 0x7F ≡ true = ground arith in
    let same : c % 256 ≡ c = omega arith in rw (narrow, same)

is_plain : Option ℕ → ℕ → Bool
is_plain none c = true
is_plain (some b) c = b == c

decode_code-plain :
    (o : Option ℕ) (c : ℕ) → is_plain o c ≡ true → c < 128 → decode_code o c ≡ c ∷ []
unfolding is_plain
decode_code-plain none c h small = utf8_append-ascii c small
decode_code-plain (some b) c h small = ap (λ x. x ∷ []) ((==_iff b c).0 h)

pub decode_code-ascii : (c : ℕ) → c < 128 → decode_code (uc_to_byte c) c ≡ c ∷ []
unfolding holds_below is_plain uc_to_byte byte_to_unicode build_byte_to_unicode_table
decode_code-ascii c h =
    decode_code-plain (uc_to_byte c) c
      (holds_below_at 128 (λ x. is_plain (uc_to_byte x) x) c refl h) h
