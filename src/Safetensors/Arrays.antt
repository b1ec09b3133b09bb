-- ===== src/Safetensors/Arrays.antt =====
-- A list of numbers that the writer prints is read back by `int_array`.
use mathlib.Core.List.{append_assoc}
use cverl.Base.{
  ℕ, zero, suc, ◌≤◌, ◌<◌, ◌^◌, ◌≡◌, refl, ap, ◌∙◌, Bool, true, false, List, [], ◌∷◌, ◌++◌, map, pos,
  ◌==◌, if◌then◌else◌, length, length-append, drop, Bytes, All, ok, arith,
}
use cverl.Safetensors.Scanner.{
  JsonScanner, eof, skip_ws, stands_at, consume, expect, int_array_loop, int_array,
}
use cverl.Safetensors.Writer.{decimal, sizes_text}
use cverl.Safetensors.Decimal.{
  IsDigit, decimal_loop-IsDigit, eof-decimal, digit_is_no_space, integer-decimal,
}

abbrev pub IsInt64 : ℕ → Type 0
IsInt64 n = n < 2 ^ 63

skip_ws-digits :
    (ds text : Bytes) → eof ds ≡ false → All IsDigit ds → skip_ws (ds ++ text) ≡ ds ++ text
unfolding skip_ws
skip_ws-digits [] text some_digit h = cc
skip_ws-digits (d ∷ ds) text some_digit h = rw (digit_is_no_space d h.0)

digit_is_no_bracket : (d : ℕ) → IsDigit d → (d == b']') ≡ false
digit_is_no_bracket d h = ground arith

stands_at-digits :
    (ds text : Bytes) → eof ds ≡ false → All IsDigit ds → stands_at b']' (ds ++ text) ≡ false
stands_at-digits [] text some_digit h = cc
stands_at-digits (d ∷ ds) text some_digit h = digit_is_no_bracket d h.0

consume-decimal :
    (n : ℕ) (text : Bytes) → consume b']' (skip_ws (decimal n ++ text)) ≡ (false, decimal n ++ text)
unfolding consume
consume-decimal n text =
    let digits = decimal_loop-IsDigit (suc n) n in
    let kept = skip_ws-digits (decimal n) text (eof-decimal n n) digits in
    ap (λ s. if stands_at b']' (skip_ws s) then (true, drop 1 (skip_ws s)) else (false, skip_ws s))
      kept
    ∙ ap (λ s. if stands_at b']' s then (true, drop 1 s) else (false, s)) kept
    ∙ ap (λ t. if t then (true, drop 1 (decimal n ++ text)) else (false, decimal n ++ text))
        (stands_at-digits (decimal n) text (eof-decimal n n) digits)

int_array_loop-sizes_text :
    (fuel n : ℕ) (sizes : List ℕ) (rest : Bytes)
    → length sizes < fuel
    → IsInt64 n
    → All IsInt64 sizes
    → int_array_loop fuel (decimal n ++ (sizes_text false sizes ++ (b']' ∷ rest)))
      ≡ ok (pos n ∷ map pos sizes, rest)
unfolding int_array_loop sizes_text consume expect skip_ws
int_array_loop-sizes_text zero n sizes rest enough small h = absurd (omega arith)
int_array_loop-sizes_text (suc fuel) n [] rest enough small h =
    rw (integer-decimal n b']' rest small refl)
int_array_loop-sizes_text (suc fuel) n (k ∷ sizes) rest enough small h =
    let others = int_array_loop-sizes_text fuel k sizes rest (omega arith) h.0 h.1 in
    let text = append_assoc (decimal k) (sizes_text false sizes) (b']' ∷ rest) in
    rw (
      text,
      integer-decimal n b',' (decimal k ++ (sizes_text false sizes ++ (b']' ∷ rest))) small refl,
      others,
    )

length-sizes_text : (sizes : List ℕ) → length sizes ≤ length (sizes_text false sizes)
unfolding sizes_text
length-sizes_text [] = omega arith
length-sizes_text (n ∷ sizes) =
    let others = length-sizes_text sizes in
    let parts = length-append (decimal n) (sizes_text false sizes) in omega arith

-- The numbers between brackets are read back, whatever follows.
pub int_array-sizes_text :
    (sizes : List ℕ) (rest : Bytes)
    → All IsInt64 sizes
    → int_array (b'[' ∷ (sizes_text true sizes ++ (b']' ∷ rest))) ≡ ok (map pos sizes, rest)
unfolding int_array sizes_text expect consume skip_ws
int_array-sizes_text [] rest h = refl
int_array-sizes_text (n ∷ sizes) rest h =
    let others = sizes_text false sizes ++ (b']' ∷ rest) in
    let text = append_assoc (decimal n) (sizes_text false sizes) (b']' ∷ rest) in
    let parts = length-append (decimal n) others in
    let more = length-append (sizes_text false sizes) (b']' ∷ rest) in
    let enough = length-sizes_text sizes in
    rw text (
      ap
        (λ (c : Bool × JsonScanner).
          if c.0 then ok ([], c.1) else int_array_loop (suc (length c.1)) c.1)
        (consume-decimal n others)
      ∙ int_array_loop-sizes_text (suc (length (decimal n ++ others))) n sizes rest (omega arith)
          h.0 h.1)
