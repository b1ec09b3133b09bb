-- ===== src/Tokenizer/Defs.antt =====
-- encode and decode. A token id is an integer, since an int32_t may be negative; the number of ids is
-- taken to fit the int32_t that the code casts it to.
use mathlib.Core.List.{flat_map}
use cverl.Base.{
  ℕ, zero, suc, ◌+◌, ◌-◌, Bool, false, ◌&&◌, ◌||◌, List, [], ◌∷◌, ◌++◌, ℤ, pos, negsuc, minus_one,
  ltb_ℤ, leb_ℤ, ltb, leb, if◌then◌else◌, length, Bytes, codes,
}

pub record EncodeOptions : Type 0 where
  pub add_bos : Bool
  pub add_eos : Bool
  pub max_tokens : ℤ

abbrev pub default_options : EncodeOptions
default_options = record { add_bos = false; add_eos = false; max_tokens = minus_one }

abbrev pub bos_id : ℕ
bos_id = 1

abbrev pub eos_id : ℕ
eos_id = 2

abbrev pub byte_offset : ℕ
byte_offset = 4

abbrev pub vocab_size : ℕ
vocab_size = 260

-- The test that leaves the loop.
abbrev pub is_full : ℤ → List ℤ → Bool
is_full max_tokens ids = ltb_ℤ (pos 0) max_tokens && leb_ℤ max_tokens (pos (length ids))

-- for (unsigned char c : text)
unfoldable pub push_bytes : ℤ → List ℤ → Bytes → List ℤ
push_bytes max_tokens ids [] = ids
push_bytes max_tokens ids (c ∷ text) =
    let rest = push_bytes max_tokens (ids ++ (pos (byte_offset + c) ∷ [])) text in
    if is_full max_tokens ids then ids else rest

unfoldable pub encode_with : EncodeOptions → Bytes → List ℤ
encode_with options text =
    let begin : List ℤ = if options.add_bos then pos bos_id ∷ [] else [] in
    let ids = push_bytes options.max_tokens begin text in
    if options.add_eos
      && (leb_ℤ options.max_tokens (pos 0) || ltb_ℤ (pos (length ids)) options.max_tokens)
    then ids ++ (pos eos_id ∷ [])
    else ids

unfoldable pub encode : Bytes → List ℤ
encode = encode_with default_options

-- What the switch appends.
abbrev pub placeholder : ℕ → Bytes
placeholder zero = 0 ∷ []
placeholder (suc zero) = codes "<bos>"
placeholder (suc (suc zero)) = codes "<eos>"
placeholder (suc (suc (suc zero))) = codes "<unk>"
placeholder (suc (suc (suc (suc id)))) = []

-- One round of the loop.
unfoldable pub decode_id : Bool → ℤ → Bytes
decode_id skip_special (negsuc n) = []
decode_id skip_special (pos id) =
    if leb vocab_size id
    then []
    else if ltb id byte_offset
    then if skip_special then [] else placeholder id
    else (id - byte_offset) ∷ []

unfoldable pub decode : Bool → List ℤ → Bytes
decode skip_special ids = flat_map (decode_id skip_special) ids
