-- ===== src/Bpe/Coding.antt =====
-- Appending and decoding code points are inverse.
use Prim.Native.Nat.{bit_and, bit_or}
use mathlib.Core.List.{flat_map}
use cverl.Base.{
  ℕ, zero, suc, ◌+◌, ◌*◌, ◌/◌, ◌%◌, ◌^◌, ◌≤◌, ◌<◌, ◌≡◌, refl, ap, subst, ◌∙◌, true, false, some,
  List, [], ◌∷◌, ◌++◌, ltb, leb, ◌==◌, ==_iff, length, drop, drop_left, length-append, Bytes, All,
  bit_or-add, holds_below, holds_below_at, arith, Bool-cases, inl, inr,
}
use cverl.Bpe.Utf8.{push_code, utf8_append, decode_one, utf8_loop, utf8_decode}

lead_two : (x : ℕ) → x < 32 → bit_and (192 + x) 0xE0 ≡ 192
unfolding holds_below
lead_two x h = (==_iff _ 192).0 (holds_below_at 32 (λ x. bit_and (192 + x) 0xE0 == 192) x refl h)

lead_three : (x : ℕ) → x < 32 → bit_and (224 + x) 0xE0 ≡ 224
unfolding holds_below
lead_three x h = (==_iff _ 224).0 (holds_below_at 32 (λ x. bit_and (224 + x) 0xE0 == 224) x refl h)

lead_three' : (x : ℕ) → x < 16 → bit_and (224 + x) 0xF0 ≡ 224
unfolding holds_below
lead_three' x h = (==_iff _ 224).0 (holds_below_at 16 (λ x. bit_and (224 + x) 0xF0 == 224) x refl h)

lead_four : (x : ℕ) → x < 16 → bit_and (240 + x) 0xF0 ≡ 240
unfolding holds_below
lead_four x h = (==_iff _ 240).0 (holds_below_at 16 (λ x. bit_and (240 + x) 0xF0 == 240) x refl h)

lead_four' : (x : ℕ) → x < 8 → bit_and (240 + x) 0xF8 ≡ 240
unfolding holds_below
lead_four' x h = (==_iff _ 240).0 (holds_below_at 8 (λ x. bit_and (240 + x) 0xF8 == 240) x refl h)

tail_byte : (y : ℕ) → y < 64 → bit_or 0x80 y % 256 ≡ 128 + y
tail_byte y h = rw (bit_or-add 6 2 y h) (omega arith)

two_byte : (x : ℕ) → x < 32 → bit_or 0xC0 x % 256 ≡ 192 + x
two_byte x h = rw (bit_or-add 5 6 x h) (omega arith)

three_byte : (x : ℕ) → x < 16 → bit_or 0xE0 x % 256 ≡ 224 + x
three_byte x h = rw (bit_or-add 4 14 x h) (omega arith)

four_byte : (x : ℕ) → x < 8 → bit_or 0xF0 x % 256 ≡ 240 + x
four_byte x h = rw (bit_or-add 3 30 x h) (omega arith)

-- Reading back each of the four forms, whatever follows.
decode_one_two :
    (x y : ℕ) (rest : Bytes)
    → x < 32
    → y < 64
    → decode_one ((192 + x) ∷ (128 + y) ∷ rest) ≡ some (x * 64 + y, 2)
unfolding decode_one
decode_one_two x y rest hx hy =
    let wide : ltb (192 + x) 0x80 ≡ false = ground arith in
    let lead : (bit_and (192 + x) 0xE0 == 0xC0) ≡ true = rw (lead_two x hx) refl in
    let long : ltb 1 (suc (suc (length rest))) ≡ true = ground arith in
    let a : (192 + x) % 32 ≡ x = omega arith in
    let b : (128 + y) % 64 ≡ y = omega arith in rw (wide, lead, long, a, b, bit_or-add 6 x y hy)

decode_one_three :
    (x y z : ℕ) (rest : Bytes)
    → x < 16
    → y < 64
    → z < 64
    → decode_one ((224 + x) ∷ (128 + y) ∷ (128 + z) ∷ rest) ≡ some (x * 4096 + y * 64 + z, 3)
unfolding decode_one
decode_one_three x y z rest hx hy hz =
    let wide : ltb (224 + x) 0x80 ≡ false = ground arith in
    let not_two : (bit_and (224 + x) 0xE0 == 0xC0) ≡ false = rw (lead_three x (omega arith)) refl in
    let lead : (bit_and (224 + x) 0xF0 == 0xE0) ≡ true = rw (lead_three' x hx) refl in
    let long : ltb 2 (suc (suc (suc (length rest)))) ≡ true = ground arith in
    let a : (224 + x) % 16 ≡ x = omega arith in
    let b : (128 + y) % 64 ≡ y = omega arith in
    let c : (128 + z) % 64 ≡ z = omega arith in
    let high : bit_or (x * 2 ^ 12) (y * 2 ^ 6) ≡ (x * 64 + y) * 2 ^ 6 =
      bit_or-add 12 x (y * 2 ^ 6) (omega arith) ∙ omega arith in
    rw (wide, not_two, lead, long, a, b, c, high, bit_or-add 6 (x * 64 + y) z hz)
      (ap (λ v. some (v, 3)) (omega arith))

decode_one_four :
    (x y z w : ℕ) (rest : Bytes)
    → x < 8
    → y < 64
    → z < 64
    → w < 64
    → decode_one ((240 + x) ∷ (128 + y) ∷ (128 + z) ∷ (128 + w) ∷ rest)
      ≡ some (x * 262144 + y * 4096 + z * 64 + w, 4)
unfolding decode_one
decode_one_four x y z w rest hx hy hz hw =
    let wide : ltb (240 + x) 0x80 ≡ false = ground arith in
    let not_two : (bit_and (240 + x) 0xE0 == 0xC0) ≡ false =
      let e : 240 + x ≡ 224 + (16 + x) = omega arith in
      rw (e, lead_three (16 + x) (omega arith)) refl in
    let not_three : (bit_and (240 + x) 0xF0 == 0xE0) ≡ false =
      rw (lead_four x (omega arith)) refl in
    let lead : (bit_and (240 + x) 0xF8 == 0xF0) ≡ true = rw (lead_four' x hx) refl in
    let long : ltb 3 (suc (suc (suc (suc (length rest))))) ≡ true = ground arith in
    let a : (240 + x) % 8 ≡ x = omega arith in
    let b : (128 + y) % 64 ≡ y = omega arith in
    let c : (128 + z) % 64 ≡ z = omega arith in
    let d : (128 + w) % 64 ≡ w = omega arith in
    let higher : bit_or (x * 2 ^ 18) (y * 2 ^ 12) ≡ (x * 64 + y) * 2 ^ 12 =
      bit_or-add 18 x (y * 2 ^ 12) (omega arith) ∙ omega arith in
    let high : bit_or ((x * 64 + y) * 2 ^ 12) (z * 2 ^ 6) ≡ (x * 4096 + y * 64 + z) * 2 ^ 6 =
      bit_or-add 12 (x * 64 + y) (z * 2 ^ 6) (omega arith) ∙ omega arith in
    rw
      (
        wide,
        not_two,
        not_three,
        lead,
        long,
        a,
        b,
        c,
        d,
        higher,
        high,
        bit_or-add 6 (x * 4096 + y * 64 + z) w hw,
      )
      (ap (λ v. some (v, 4)) (omega arith))

decode_one-utf8_append :
    (cp : ℕ) (rest : Bytes)
    → cp < 0x200000
    → decode_one (utf8_append cp ++ rest) ≡ some (cp, length (utf8_append cp))
decode_one-utf8_append cp rest h = elim (Bool-cases (leb cp 0x7F)) [
  | inl one ↦
      (unfold utf8_append decode_one in
        let small : cp % 256 ≡ cp = ground arith in
        let narrow : ltb cp 0x80 ≡ true = ground arith in rw (one, small, narrow))
  | inr wide ↦ elim (Bool-cases (leb cp 0x7FF)) [
    | inl two ↦
        let form : utf8_append cp ≡ (192 + cp / 2 ^ 6) ∷ (128 + cp % 64) ∷ [] =
          unfold utf8_append in
          rw (wide, two, two_byte (cp / 2 ^ 6) (ground arith), tail_byte (cp % 64) (omega arith)) in
        rw form (
          decode_one_two (cp / 2 ^ 6) (cp % 64) rest (ground arith) (omega arith)
          ∙ ap (λ v. some (v, 2)) (omega arith))
    | inr wider ↦ elim (Bool-cases (leb cp 0xFFFF)) [
      | inl three ↦
          let form : utf8_append cp
              ≡ (224 + cp / 2 ^ 12) ∷ (128 + cp / 2 ^ 6 % 64) ∷ (128 + cp % 64) ∷ [] =
            unfold utf8_append in
            rw (
              wide,
              wider,
              three,
              three_byte (cp / 2 ^ 12) (ground arith),
              tail_byte (cp / 2 ^ 6 % 64) (omega arith),
              tail_byte (cp % 64) (omega arith),
            ) in
          rw form (
            decode_one_three (cp / 2 ^ 12) (cp / 2 ^ 6 % 64) (cp % 64) rest (ground arith)
              (omega arith) (omega arith)
            ∙ ap (λ v. some (v, 3)) (omega arith))
      | inr widest ↦
          let form : utf8_append cp
              ≡ (240 + cp / 2 ^ 18)
                ∷ (128 + cp / 2 ^ 12 % 64)
                ∷ (128 + cp / 2 ^ 6 % 64)
                ∷ (128 + cp % 64)
                ∷ [] =
            unfold utf8_append in
            rw (
              wide,
              wider,
              widest,
              four_byte (cp / 2 ^ 18) (omega arith),
              tail_byte (cp / 2 ^ 12 % 64) (omega arith),
              tail_byte (cp / 2 ^ 6 % 64) (omega arith),
              tail_byte (cp % 64) (omega arith),
            ) in
          rw form (
            decode_one_four (cp / 2 ^ 18) (cp / 2 ^ 12 % 64) (cp / 2 ^ 6 % 64) (cp % 64) rest
              (omega arith) (omega arith) (omega arith) (omega arith)
            ∙ ap (λ v. some (v, 4)) (omega arith))
    ]
  ]
]

utf8_append_cons : (cp : ℕ) → (b : ℕ) × (bs : Bytes) × (utf8_append cp ≡ b ∷ bs)
utf8_append_cons cp = by_list (utf8_append cp) (unfold utf8_append in ground arith)
  where
    by_list : (s : Bytes) → 0 < length s → (b : ℕ) × (bs : Bytes) × (s ≡ b ∷ bs)
    by_list [] h = absurd (omega arith)
    by_list (b ∷ bs) h = (b, bs, refl)

utf8_loop_step :
    (fuel b cp : ℕ) (bs rest : Bytes)
    → decode_one ((b ∷ bs) ++ rest) ≡ some (cp, length (b ∷ bs))
    → utf8_loop (suc fuel) ((b ∷ bs) ++ rest)
      ≡ (cp ∷ (utf8_loop fuel rest).0, (utf8_loop fuel rest).1)
unfolding utf8_loop
utf8_loop_step fuel b cp bs rest h =
    ap (λ o. push_code o (λ advance. utf8_loop fuel (drop advance ((b ∷ bs) ++ rest)))) h
    ∙ ap (λ s. (cp ∷ (utf8_loop fuel s).0, (utf8_loop fuel s).1)) (drop_left bs rest)

abbrev pub AllCodes : List ℕ → Type 0
AllCodes = All (λ cp. cp < 0x200000)

utf8_loop_all :
    (fuel : ℕ) (cps : List ℕ)
    → length (flat_map utf8_append cps) ≤ fuel
    → AllCodes cps
    → utf8_loop fuel (flat_map utf8_append cps) ≡ (cps, true)
unfolding flat_map
utf8_loop_all zero [] enough h = unfold utf8_loop in refl
utf8_loop_all (suc fuel) [] enough h = unfold utf8_loop in refl
utf8_loop_all fuel (cp ∷ cps) enough h =
    first fuel (utf8_append_cons cp) enough (λ f short. utf8_loop_all f cps short h.1)
  where
    rest : Bytes
    rest = flat_map utf8_append cps

    first :
        (fuel : ℕ)
        → (b : ℕ) × (bs : Bytes) × (utf8_append cp ≡ b ∷ bs)
        → length (utf8_append cp ++ rest) ≤ fuel
        → ((f : ℕ) → length rest ≤ f → utf8_loop f rest ≡ (cps, true))
        → utf8_loop fuel (utf8_append cp ++ rest) ≡ (cp ∷ cps, true)
    first zero (b, bs, e) enough later =
        absurd (omega (arith, length-append (utf8_append cp) rest, ap length e))
    first (suc fuel) (b, bs, e) enough later =
        let one =
          subst (λ s. decode_one (s ++ rest) ≡ some (cp, length s)) e
            (decode_one-utf8_append cp rest h.0) in
        let short : length rest ≤ fuel =
          omega (arith, length-append (utf8_append cp) rest, ap length e) in
        ap (λ s. utf8_loop (suc fuel) (s ++ rest)) e
        ∙ utf8_loop_step fuel b cp bs rest one
        ∙ ap (λ r. (cp ∷ r.0, r.1)) (later fuel short)

-- Code points of at most 21 bits, appended one behind the other, are decoded to themselves.
pub utf8_decode-utf8_append :
    (cps : List ℕ) → AllCodes cps → utf8_decode (flat_map utf8_append cps) ≡ (cps, true)
unfolding utf8_decode
utf8_decode-utf8_append cps h =
    utf8_loop_all (length (flat_map utf8_append cps)) cps (omega arith) h
