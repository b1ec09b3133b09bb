-- ===== src/Safetensors/Padding.antt =====
-- The spaces behind the header, and the length in front of it.
use mathlib.Core.List.{append_assoc, append-nil}
use cverl.Base.{
  ℕ, zero, suc, ◌+◌, ◌%◌, ◌^◌, ◌≤◌, ◌<◌, ◌≡◌, refl, ap, sym, ◌∙◌, ◌≢◌, Bool-cases, ◌⊎◌, inl, inr,
  Bool, true, false, List, [], ◌∷◌, ◌++◌, ltb, ◌==◌, length, length-append, take, drop, take_left,
  drop_left, Bytes, ok, arith,
}
use cverl.Transport.Codec.{le_bytes}
use cverl.Transport.Decoding.{length-le_bytes, from_le-le_bytes}
use cverl.Safetensors.Writer.{TensorEntry, pad_loop, unpadded, build_header}
use cverl.Safetensors.Loader.{read_u64_le, parse_safetensors_header, parse_header_text}

pad_loop-spaces :
    (fuel : ℕ) (header : Bytes) → (spaces : Bytes) × (pad_loop fuel header ≡ header ++ spaces)
unfolding pad_loop
pad_loop-spaces zero header = ([], sym (append-nil header))
pad_loop-spaces (suc fuel) header =
    by_test ((8 + length header) % 8 == 0) (pad_loop-spaces fuel (header ++ (b' ' ∷ [])))
  where
    by_test :
        (t : Bool)
        → ((spaces : Bytes) × (pad_loop fuel (header ++ (b' ' ∷ []))
              ≡ (header ++ (b' ' ∷ [])) ++ spaces))
        → (spaces : Bytes) × ((elim t [
          | true ↦ header
          | false ↦ pad_loop fuel (header ++ (b' ' ∷ []))
        ])
            ≡ header ++ spaces)
    by_test true rest = ([], sym (append-nil header))
    by_test false (spaces, e) = (b' ' ∷ spaces, e ∙ append_assoc header (b' ' ∷ []) spaces)

pub build_header-unpadded :
    (entries : List TensorEntry)
    → (spaces : Bytes) × (build_header entries ≡ unpadded entries ++ spaces)
unfolding build_header
build_header-unpadded entries = pad_loop-spaces 7 (unpadded entries)

-- Aligned, or fewer steps than the fuel from it.
abbrev Near : ℕ → ℕ → Type 0
Near fuel n = (n % 8 ≡ 0) ⊎ (8 ≤ n % 8 + fuel)

some_steps : (n : ℕ) → Near 7 n
some_steps n = elim (Bool-cases (n % 8 == 0)) [
  | inl here ↦ inl (ground arith)
  | inr off ↦ inr (ground arith)
]

fewer_steps : (fuel n m : ℕ) → Near (suc fuel) n → n % 8 ≢ 0 → m ≡ n + 1 → Near fuel m
fewer_steps fuel n m (inl here) off e = absurd (off here)
fewer_steps fuel n m (inr close) off e = elim (Bool-cases (m % 8 == 0)) [
  | inl aligned ↦ inl (ground arith)
  | inr other ↦ inr (let more : m % 8 ≢ 0 = ground arith in ground arith)
]

aligned_iff : (n : ℕ) → ((8 + n) % 8 == 0) ≡ true → n % 8 ≡ 0
aligned_iff n e = ground arith

not_aligned : (n : ℕ) → ((8 + n) % 8 == 0) ≡ false → n % 8 ≢ 0
not_aligned n e = ground arith

pad_loop-aligned :
    (fuel : ℕ) (header : Bytes) → Near fuel (length header) → length (pad_loop fuel header) % 8 ≡ 0
unfolding pad_loop
pad_loop-aligned zero header (inl h) = h
pad_loop-aligned zero header (inr h) = absurd (omega arith)
pad_loop-aligned (suc fuel) header h =
    by_test ((8 + length header) % 8 == 0) refl (pad_loop-aligned fuel (header ++ (b' ' ∷ [])))
  where
    by_test :
        (t : Bool)
        → ((8 + length header) % 8 == 0) ≡ t
        → (Near fuel (length (header ++ (b' ' ∷ [])))
            → length (pad_loop fuel (header ++ (b' ' ∷ []))) % 8 ≡ 0)
        → length (elim t [ true ↦ header | false ↦ pad_loop fuel (header ++ (b' ' ∷ [])) ]) % 8 ≡ 0
    by_test true e rest = aligned_iff (length header) e
    by_test false e rest = rest (
        fewer_steps fuel (length header) (length (header ++ (b' ' ∷ []))) h
          (not_aligned (length header) e) (length-append header (b' ' ∷ []) ∙ omega arith))

-- The tensors' bytes begin at a multiple of 8.
pub build_header-aligned :
    (entries : List TensorEntry) → (8 + length (build_header entries)) % 8 ≡ 0
unfolding build_header
build_header-aligned entries =
    let aligned = pad_loop-aligned 7 (unpadded entries) (some_steps (length (unpadded entries))) in
    omega arith

-- A length and what it measures are read back, whatever follows.
pub read_u64_le-length :
    (header rest : Bytes)
    → length header < 2 ^ 63
    → read_u64_le (le_bytes 8 (length header) ++ (header ++ rest)) ≡ ok (length header)
unfolding read_u64_le
read_u64_le-length header rest small =
    let word = le_bytes 8 (length header) in
    let size = length-le_bytes 8 (length header) in
    let all = length-append word (header ++ rest) in
    let enough : ltb (length (word ++ (header ++ rest))) 8 ≡ false = ground arith in
    let front : take 8 (word ++ (header ++ rest)) ≡ word =
      ap (λ n. take n (word ++ (header ++ rest))) (sym size) ∙ take_left word (header ++ rest) in
    rw (enough, front, from_le-le_bytes 8 (length header) (omega arith))

pub parse_safetensors_header-text :
    (filename header rest : Bytes)
    → length header < 2 ^ 63
    → parse_safetensors_header (le_bytes 8 (length header) ++ (header ++ rest)) filename
      ≡ parse_header_text filename header
unfolding parse_safetensors_header
parse_safetensors_header-text filename header rest small =
    let word = le_bytes 8 (length header) in
    let size = length-le_bytes 8 (length header) in
    let back : drop 8 (word ++ (header ++ rest)) ≡ header ++ rest =
      ap (λ n. drop n (word ++ (header ++ rest))) (sym size) ∙ drop_left word (header ++ rest) in
    let all = length-append header rest in
    let enough : ltb (length (header ++ rest)) (length header) ≡ false = ground arith in
    rw (read_u64_le-length header rest small, back, enough, take_left header rest)
