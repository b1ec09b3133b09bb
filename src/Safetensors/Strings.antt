-- ===== src/Safetensors/Strings.antt =====
-- A string that json_escape writes is read back by `string`.
use cverl.Base.{ℕ, ◌≡◌, refl, Bool, true, false, [], ◌∷◌, ◌++◌, ◌==◌, Bytes, All, ok, arith}
use cverl.Safetensors.Scanner.{string_loop, string, skip_ws, expect, consume}
use cverl.Safetensors.Writer.{escape_char, json_escape}

-- A carriage return is written as an escape that `string` reads as the letter.
abbrev pub IsNoReturn : ℕ → Type 0
IsNoReturn c = (c == 13) ≡ false

pub string_loop-json_escape :
    (s rest : Bytes)
    → All IsNoReturn s
    → string_loop false (json_escape s ++ (b'"' ∷ rest)) ≡ ok (s, rest)
unfolding string_loop json_escape
string_loop-json_escape [] rest h = refl
string_loop-json_escape (c ∷ s) rest h =
    by_tests (c == b'"') (c == b'\\') (c == 10) (c == 9) refl refl refl refl
      (string_loop-json_escape s rest h.1)
  where
    by_tests :
        (quote backslash newline tab : Bool)
        → (c == b'"') ≡ quote
        → (c == b'\\') ≡ backslash
        → (c == 10) ≡ newline
        → (c == 9) ≡ tab
        → string_loop false (json_escape s ++ (b'"' ∷ rest)) ≡ ok (s, rest)
        → string_loop false ((escape_char c ++ json_escape s) ++ (b'"' ∷ rest)) ≡ ok (c ∷ s, rest)
    by_tests true backslash newline tab q b n t others =
        let here : c ≡ b'"' = ground arith in rw (here, others)
    by_tests false true newline tab q b n t others =
        let here : c ≡ b'\\' = ground arith in rw (here, others)
    by_tests false false true tab q b n t others =
        let here : c ≡ 10 = ground arith in rw (here, others)
    by_tests false false false true q b n t others =
        let here : c ≡ 9 = ground arith in rw (here, others)
    by_tests false false false false q b n t others = rw (q, b, n, h.0, t, q, b, others)

-- A name without a carriage return is read back, whatever follows it.
pub string-json_escape :
    (s rest : Bytes)
    → All IsNoReturn s
    → string (b'"' ∷ (json_escape s ++ (b'"' ∷ rest))) ≡ ok (s, rest)
unfolding string skip_ws expect consume
string-json_escape s rest h = string_loop-json_escape s rest h
