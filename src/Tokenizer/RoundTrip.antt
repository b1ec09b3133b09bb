-- ===== src/Tokenizer/RoundTrip.antt =====
-- What decode makes of an encoding.
use mathlib.Core.List.{flat_map}
use cverl.Base.{
  ℕ, zero, suc, ◌+◌, ◌-◌, ◌<◌, ◌≡◌, refl, ap, ◌∙◌, Bool, true, false, List, [], ◌∷◌, ◌++◌, map, ℤ,
  pos, negsuc, ltb, leb, if◌then◌else◌, take, All, Bytes, arith,
}
use cverl.Tokenizer.Defs.{EncodeOptions, eos_id, encode_with, decode_id, decode}
use cverl.Tokenizer.Truncation.{byte_id, limited, whole, encode_with-limited}

abbrev pub AllBytes : Bytes → Type 0
AllBytes = All (λ c. c < 256)

-- The bytes that survive a limit: the begin token takes one place.
abbrev pub kept : Bool → ℤ → Bytes → Bytes
kept true (pos (suc n)) text = take n text
kept false (pos (suc n)) text = take (suc n) text
kept _ (pos zero) text = text
kept _ (negsuc n) text = text

abbrev pub end_ids : Bool → List ℤ
end_ids add_eos = if add_eos then pos eos_id ∷ [] else []

decode_byte : (skip : Bool) (c : ℕ) → c < 256 → decode_id skip (byte_id c) ≡ c ∷ []
unfolding decode_id
decode_byte skip c h =
    let inside : leb 260 (4 + c) ≡ false = ground arith in
    let byte : ltb (4 + c) 4 ≡ false = ground arith in
    let back : 4 + c - 4 ≡ c = omega arith in rw (inside, byte, back)

-- The special tokens vanish, and a cut of the sequence is a cut of the text.
decode-take :
    (e : Bool) (n : ℕ) (text : Bytes)
    → AllBytes text
    → decode true (take n (map byte_id text ++ end_ids e)) ≡ take n text
unfolding decode flat_map decode_id
decode-take e zero text h = refl
decode-take true (suc zero) [] h = refl
decode-take true (suc (suc n)) [] h = refl
decode-take false (suc n) [] h = refl
decode-take e (suc n) (c ∷ text) h =
    ap (◌++◌ (decode_id true (byte_id c))) (decode-take e n text h.1)
    ∙ ap (λ bs. bs ++ take n text) (decode_byte true c h.0)

decode_all :
    (e : Bool) (text : Bytes) → AllBytes text → decode true (map byte_id text ++ end_ids e) ≡ text
unfolding decode flat_map decode_id
decode_all true [] h = refl
decode_all false [] h = refl
decode_all e (c ∷ text) h =
    ap (◌++◌ (decode_id true (byte_id c))) (decode_all e text h.1)
    ∙ ap (λ bs. bs ++ text) (decode_byte true c h.0)

-- Of a text of bytes, decode without special tokens gives back all that the limit left: the text, or
-- with a positive max_tokens the first max_tokens bytes of it, one fewer behind a bos.
pub decode-encode_with :
    (options : EncodeOptions) (text : Bytes)
    → AllBytes text
    → decode true (encode_with options text) ≡ kept options.add_bos options.max_tokens text
unfolding decode flat_map decode_id
decode-encode_with options text h =
    ap (decode true) (encode_with-limited options text)
    ∙ by_limit options.add_bos options.add_eos options.max_tokens
  where
    by_limit :
        (b e : Bool) (m : ℤ)
        → decode true (limited m (whole (record { add_bos = b; add_eos = e; max_tokens = m }) text))
          ≡ kept b m text
    by_limit true e (pos zero) = decode_all e text h
    by_limit false e (pos zero) = decode_all e text h
    by_limit true e (pos (suc n)) = decode-take e n text h
    by_limit false e (pos (suc n)) = decode-take e (suc n) text h
    by_limit true e (negsuc n) = decode_all e text h
    by_limit false e (negsuc n) = decode_all e text h
