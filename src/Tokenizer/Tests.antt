-- ===== src/Tokenizer/Tests.antt =====
-- Runs of the tokenizer, and the theorem applied to them.
use cverl.Base.{◌≡◌, refl, true, [], ◌∷◌, pos, take, Bytes, codes, arith}
use cverl.Tokenizer.Defs.{EncodeOptions, push_bytes, encode_with, encode, decode}
use cverl.Tokenizer.Truncation.{encode_with-limited}
use cverl.Tokenizer.RoundTrip.{decode-encode_with}

abbrev options : EncodeOptions
options = record { add_bos = true; add_eos = true; max_tokens = pos 3 }

abbrev text : Bytes
text = codes "abc"

encode_cut : encode_with options text ≡ pos 1 ∷ pos 101 ∷ pos 102 ∷ []
unfolding encode_with push_bytes
encode_cut = refl

encode_plain : encode text ≡ pos 101 ∷ pos 102 ∷ pos 103 ∷ []
unfolding encode encode_with push_bytes
encode_plain = refl

encode_with-limited_example :
    encode_with options text ≡ take 3 (pos 1 ∷ pos 101 ∷ pos 102 ∷ pos 103 ∷ pos 2 ∷ [])
encode_with-limited_example = encode_with-limited options text

decode-encode_with_example : decode true (encode_with options text) ≡ 97 ∷ 98 ∷ []
decode-encode_with_example =
    decode-encode_with options text (omega arith, (omega arith, (omega arith, tt)))
