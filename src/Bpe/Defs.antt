-- ===== src/Bpe/Defs.antt =====
-- Impl and the functions that encode and decode. The JSON file that fills Impl and the matching of
-- the compiled pattern by pcre2_match are parameters; an id is an integer.
use mathlib.Core.List.{flat_map}
use cverl.Base.{
  ℕ, zero, suc, ◌+◌, ◌-◌, Bool, true, false, ◌&&◌, ◌||◌, Option, none, some, List, [], ◌∷◌, ◌++◌,
  map, ℤ, pos, pos_part, cast_int32, ltb_ℤ, leb_ℤ, ltb, leb, ◌==◌, if◌then◌else◌, length, get_elem?,
  take, drop, Bytes,
}
use cverl.Tokenizer.Defs.{EncodeOptions}
use cverl.Bpe.Utf8.{utf8_append, utf8_decode}
use cverl.Bpe.Table.{byte_to_unicode, uc_to_byte}
use cverl.Bpe.Merge.{Ranks, merge_loop}

-- pcre2_match of the compiled pattern, from a place on: the ends of a match, `rc < 0` for none.
abbrev pub Matcher : Type 0
Matcher = Bytes → ℕ → Option (ℕ × ℕ)

pub record Impl : Type 0 where
  pub vocab : Bytes → Option ℤ
  pub id_to_token : List Bytes
  pub merge_ranks : Ranks
  pub pre_tokenizer : Matcher
  pub added_tokens_sorted : List (Bytes × ℤ)
  pub is_special : List Bool
  pub vocab_size : ℤ
  pub bos_id : ℤ
  pub eos_id : ℤ
  pub unk_id : ℤ

-- The part of a round behind the match, and the rounds behind it.
abbrev pub take_match : Bytes → ℕ → Option (ℕ × ℕ) → (ℕ → List Bytes) → List Bytes
take_match text start none later = []
take_match text start (some (m_start, m_end)) later =
    let skip = later (start + 1) in
    let rest = later m_end in
    if m_end == m_start then skip else take (m_end - m_start) (drop m_start text) ∷ rest

-- while (start <= text.size()), with the matches that are appended. Each round goes on by a byte, so
-- that one more than the number of bytes is fuel.
unfoldable pub find_loop : Matcher → Bytes → ℕ → ℕ → List Bytes
find_loop match text zero start = []
find_loop match text (suc fuel) start =
    if leb start (length text)
    then take_match text start (match text start) (λ next. find_loop match text fuel next)
    else []

unfoldable pub find_all : Matcher → Bytes → List Bytes
find_all match text = find_loop match text (length text + 1) 0

-- Whether a text begins with another one, and the first place at which it contains it.
abbrev pub is_prefix : Bytes → Bytes → Bool
is_prefix [] s = true
is_prefix (c ∷ content) [] = false
is_prefix (c ∷ content) (b ∷ s) = let rest = is_prefix content s in (c == b) && rest

abbrev pub one_further : Option ℕ → Option ℕ
one_further none = none
one_further (some i) = some (i + 1)

unfoldable pub find : Bytes → Bytes → Option ℕ
find content [] = if is_prefix content [] then some 0 else none
find content (b ∷ s) =
    let rest = find content s in if is_prefix content (b ∷ s) then some 0 else one_further rest

-- The best added token so far: where it starts, its length and its id.
pub record Special : Type 0 where
  pub best_start : ℕ
  pub best_len : ℕ
  pub best_id : ℤ

abbrev pub better_special : Option Special → Bytes → ℤ → Option ℕ → Option Special
better_special best content id none = best
better_special none content id (some found) =
    some (record { best_start = found; best_len = length content; best_id = id })
better_special (some best) content id (some found) =
    if ltb found best.best_start
      || ((found == best.best_start) && ltb best.best_len (length content))
    then some (record { best_start = found; best_len = length content; best_id = id })
    else some best

-- for (const auto& [content, id] : impl_->added_tokens_sorted), with places counted from `pos`.
unfoldable pub find_special : Option Special → List (Bytes × ℤ) → Bytes → Option Special
find_special best [] s = best
find_special best (token ∷ tokens) s =
    if length token.0 == 0
    then find_special best tokens s
    else find_special (better_special best token.0 token.1 (find token.0 s)) tokens s

-- The two tests at the end of encode, which read ids.size() as an int32_t.
abbrev pub push_eos : ℤ → Bool → ℤ → List ℤ → List ℤ
push_eos max_tokens wanted eos_id ids =
    if wanted
    then if leb_ℤ max_tokens (pos 0) || ltb_ℤ (cast_int32 (pos (length ids))) max_tokens
      then ids ++ (eos_id ∷ [])
      else ids
    else ids

abbrev pub resize_to : ℤ → List ℤ → List ℤ
resize_to max_tokens ids =
    if ltb_ℤ (pos 0) max_tokens && ltb_ℤ max_tokens (cast_int32 (pos (length ids)))
    then take (pos_part max_tokens) ids
    else ids

-- The bytes that a code point of a decoded text stands for.
abbrev pub decode_code : Option ℕ → ℕ → Bytes
decode_code none cp = utf8_append cp
decode_code (some b) cp = b ∷ []

-- The id of a part, or that of the unknown token, or nothing.
abbrev pub id_or_unk : ℤ → Option ℤ → List ℤ
id_or_unk unk_id (some id) = id ∷ []
id_or_unk unk_id none = if leb_ℤ (pos 0) unk_id then unk_id ∷ [] else []

module _ (impl : Impl) where
  -- What a final part contributes.
  unfoldable pub part_ids : Bytes → List ℤ
  part_ids p = id_or_unk impl.unk_id (impl.vocab p)

  -- The part of bpe_encode_pretoken behind the initial parts.
  unfoldable pub encode_parts : List Bytes → List ℤ
  encode_parts [] = []
  encode_parts (p ∷ []) = part_ids p
  encode_parts (p ∷ q ∷ parts) =
      flat_map part_ids (merge_loop impl.merge_ranks (length (p ∷ q ∷ parts)) (p ∷ q ∷ parts))

  unfoldable pub bpe_encode_pretoken : Bytes → List ℤ
  bpe_encode_pretoken utf8_chunk =
      encode_parts (map (λ b. utf8_append (byte_to_unicode b)) utf8_chunk)

  unfoldable pub encode_text_segment : Bytes → List ℤ
  encode_text_segment text = flat_map bpe_encode_pretoken (find_all impl.pre_tokenizer text)

  -- What a round of the loop over `pos` appends, and what the rounds behind it do.
  abbrev pub emit : Option Special → Bytes → (Bytes → List ℤ) → List ℤ
  emit none s later = encode_text_segment s
  emit (some best) s later =
      (if ltb 0 best.best_start then encode_text_segment (take best.best_start s) else [])
      ++ (best.best_id ∷ later (drop (best.best_start + best.best_len) s))

  -- while (pos < s.size()), over the text from `pos` on; the fuel is its number of bytes.
  unfoldable pub encode_loop : ℕ → Bytes → List ℤ
  encode_loop zero s = []
  encode_loop (suc fuel) [] = []
  encode_loop (suc fuel) (b ∷ s) =
      emit (find_special none impl.added_tokens_sorted (b ∷ s)) (b ∷ s)
        (λ rest. encode_loop fuel rest)

  unfoldable pub encode : Bytes → EncodeOptions → List ℤ
  encode text options =
      let begin : List ℤ =
        if options.add_bos && leb_ℤ (pos 0) impl.bos_id then impl.bos_id ∷ [] else [] in
      resize_to options.max_tokens (
        push_eos options.max_tokens (options.add_eos && leb_ℤ (pos 0) impl.eos_id) impl.eos_id
          (begin ++ encode_loop (length text) text))

  -- The string that an id adds to `concat`.
  unfoldable pub token_of : Bool → ℤ → Bytes
  token_of skip_special id =
      if ltb_ℤ id (pos 0) || leb_ℤ impl.vocab_size id
      then []
      else if skip_special
          && elim (get_elem? impl.is_special (pos_part id)) [ none ↦ false | some b ↦ b ]
      then []
      else elim (get_elem? impl.id_to_token (pos_part id)) [ none ↦ [] | some token ↦ token ]

  unfoldable pub decode_ids : List ℤ → Bool → Bytes
  decode_ids ids skip_special =
      flat_map (λ cp. decode_code (uc_to_byte cp) cp)
        (utf8_decode (flat_map (token_of skip_special) ids)).0

  -- The public function.
  unfoldable pub decode : List ℤ → Bool → Bytes
  decode = decode_ids
