-- ===== src/Bpe/Latin.antt =====
-- Added tokens that are not ASCII.
use mathlib.Core.List.{flat_map}
use cverl.Base.{
  ℕ, ◌+◌, ◌-◌, ◌≤◌, ◌<◌, ◌≡◌, ◌≢◌, refl, ap, subst, ◌∙◌, Bool, true, false, some, [], ◌∷◌, ◌++◌, ℤ,
  ◌==◌, length, leb, holds_below, holds_below_at, arith, ◌||◌,
}
use cverl.Bpe.Utf8.{utf8_append, utf8_decode}
use cverl.Bpe.Coding.{utf8_decode-utf8_append}
use cverl.Bpe.Table.{build_byte_to_unicode_table, byte_to_unicode, uc_to_byte}
use cverl.Bpe.Inverse.{is_byte, is_byte-some}
use cverl.Bpe.Defs.{Impl, decode_code, token_of, decode_ids, decode}

latin_byte : (x : ℕ) → (x == 12) ≡ false → x < 95 → uc_to_byte (161 + x) ≡ some (161 + x)
unfolding holds_below is_byte uc_to_byte byte_to_unicode build_byte_to_unicode_table
latin_byte x h small = is_byte-some (uc_to_byte (161 + x)) (161 + x) (
    left (x == 12) _ h
      (holds_below_at 95 (λ y. (y == 12) || is_byte (uc_to_byte (161 + y)) (161 + y)) x refl small))
  where
    left : (p q : Bool) → p ≡ false → (p || q) ≡ true → q ≡ true
    left true q e k = cc
    left false q e k = k

latin_width : (c : ℕ) → 161 ≤ c → c < 256 → length (utf8_append c) ≡ 2
unfolding utf8_append
latin_width c low high =
    let wide : leb c 0x7F ≡ false = ground arith in
    let two : leb c 0x7FF ≡ true = ground arith in rw (wide, two)

-- A token whose content is one character from U+00A1 to U+00FF, the soft hyphen U+00AD aside, is
-- decoded, with no token skipped, to the one byte that has the character's number, and not to the
-- two bytes of its content.
pub decode_latin :
    (impl : Impl) (id : ℤ) (c : ℕ)
    → 161 ≤ c
    → c < 256
    → c ≢ 173
    → token_of impl false id ≡ utf8_append c
    → (decode impl (id ∷ []) false ≡ c ∷ []) × (length (token_of impl false id) ≡ 2)
unfolding decode decode_ids flat_map
decode_latin impl id c low high other token =
    let codes = utf8_decode-utf8_append (c ∷ []) (omega (arith, high), tt) in
    let at : 161 + (c - 161) ≡ c = omega arith in
    let back : uc_to_byte c ≡ some c =
      subst (λ k. uc_to_byte k ≡ some k) at
        (latin_byte (c - 161) (ground (arith, other)) (omega arith)) in
    (
      ap (λ s. flat_map (λ cp. decode_code (uc_to_byte cp) cp) (utf8_decode (s ++ [])).0) token
          ∙ ap (λ r. flat_map (λ cp. decode_code (uc_to_byte cp) cp) r.0) codes
          ∙ ap (λ o. decode_code o c ++ []) back,
      ap length token ∙ latin_width c low high,
    )
