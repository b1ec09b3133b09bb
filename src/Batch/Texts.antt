-- ===== src/Batch/Texts.antt =====
-- The rows of a batch that the byte tokenizer encodes, decoded.
use mathlib.Core.List.{flat_map, append_assoc, append-nil}
use cverl.Base.{
  ◌<◌, ◌^◌, cast_int32, cast_int32-pos, ℕ, zero, suc, ◌-◌, ◌≤◌, ◌≡◌, refl, ap, sym, ◌∙◌, min, Bool,
  true, false, List, [], ◌∷◌, ◌++◌, ℤ, pos, pos_part, ◌==◌, if◌then◌else◌, length, take, replicate,
  length-take, take_all, arith,
}
use cverl.Reward.Defs.{Gsm8kRewardOptions}
use cverl.Tokenizer.Defs.{EncodeOptions, encode_with, decode_id, decode}
use cverl.Tokenizer.Truncation.{encode_with-limited, limited, whole}
use cverl.Tokenizer.RoundTrip.{AllBytes, kept, decode-encode_with}
use cverl.Transport.Messages.{RolloutSequence}
use cverl.Batch.Defs.{
  byte_tokenizer, RolloutBatchOptions, left_pad_into_row, right_pad_into_row, prompt_encode,
  response_encode, response_ids_of, Floats, RolloutRow, make_row,
}

decode-append : (a b : List ℤ) → decode true (a ++ b) ≡ decode true a ++ decode true b
unfolding decode flat_map
decode-append [] b = refl
decode-append (x ∷ a) b =
    ap (◌++◌ (decode_id true x)) (decode-append a b)
    ∙ sym (
        append_assoc (decode_id true x) (flat_map (decode_id true) a) (flat_map (decode_id true) b))

decode-replicate : (n : ℕ) → decode true (replicate n (pos 0)) ≡ []
unfolding decode flat_map decode_id
decode-replicate zero = refl
decode-replicate (suc n) = decode-replicate n

-- An encoding under a positive limit is no longer than the limit.
length-encode_with :
    (options : EncodeOptions) (n : ℕ) (text : List ℕ)
    → options.max_tokens ≡ pos (suc n)
    → length (encode_with options text) ≤ suc n
length-encode_with options n text h =
    let cut : encode_with options text ≡ take (suc n) (whole options text) =
      encode_with-limited options text ∙ ap (λ m. limited m (whole options text)) h in
    rw cut (omega (arith, length-take (suc n) (whole options text)))

-- A row that holds all its ids decodes to what the ids decode to.
decode-left_pad_into_row :
    (ids : List ℤ) (n : ℕ)
    → length ids ≤ n
    → decode true (left_pad_into_row ids n (pos 0)) ≡ decode true ids
unfolding left_pad_into_row
decode-left_pad_into_row ids n h =
    let all : min (length ids) n ≡ length ids = omega arith in
    let front : length ids - length ids ≡ 0 = omega arith in
    rw (
      all,
      front,
      take_all (length ids) ids (omega arith),
      decode-append (replicate (n - length ids) (pos 0)) ids,
      decode-replicate (n - length ids),
    )

decode-right_pad_into_row :
    (ids : List ℤ) (n : ℕ)
    → length ids ≤ n
    → decode true (right_pad_into_row ids n (pos 0)) ≡ decode true ids
unfolding right_pad_into_row
decode-right_pad_into_row ids n h =
    let all : min (length ids) n ≡ length ids = omega arith in
    rw
      (
        all,
        take_all (length ids) ids (omega arith),
        decode-append ids (replicate (n - length ids) (pos 0)),
        decode-replicate (n - length ids),
      )
      (append-nil (decode true ids))

module _ {Score Float : Type 0} (floats : Floats Score Float) (options : RolloutBatchOptions)
    (reward_options : Gsm8kRewardOptions Score) (ground_truths : List (List ℕ)) where
  -- The row that the builder makes of a prompt and a sequence with the byte tokenizer.
  abbrev pub byte_row : List ℕ → RolloutSequence → RolloutRow Float
  byte_row prompt seq =
      make_row floats byte_tokenizer options reward_options ground_truths
        (encode_with (prompt_encode options) prompt) seq

  decode-prompt_ids :
      (prompt : List ℕ) (seq : RolloutSequence) (p : ℕ)
      → options.max_prompt_tokens ≡ pos (suc p)
      → suc p < 2 ^ 31
      → AllBytes prompt
      → decode true (byte_row prompt seq).prompt_ids
        ≡ (if options.add_bos then take p prompt else take (suc p) prompt)
  unfolding make_row
  decode-prompt_ids prompt seq p hp small prompt_bytes =
      ap
        (λ n.
          decode true (left_pad_into_row (encode_with (prompt_encode options) prompt) n (pos 0)))
        (ap pos_part hp)
      ∙ decode-left_pad_into_row (encode_with (prompt_encode options) prompt) (suc p)
          (length-encode_with (prompt_encode options) p prompt as_given)
      ∙ decode-encode_with (prompt_encode options) prompt prompt_bytes
      ∙ ap (λ m. kept options.add_bos m prompt) as_given
      ∙ by_bos options.add_bos
    where
      as_given : cast_int32 options.max_prompt_tokens ≡ pos (suc p)
      as_given = ap cast_int32 hp ∙ cast_int32-pos (suc p) small

      by_bos :
          (b : Bool)
          → kept b (pos (suc p)) prompt ≡ (if b then take p prompt else take (suc p) prompt)
      by_bos true = refl
      by_bos false = refl

  decode-response_ids :
      (prompt : List ℕ) (seq : RolloutSequence) (r : ℕ)
      → options.max_response_tokens ≡ pos (suc r)
      → suc r < 2 ^ 31
      → AllBytes seq.text
      → seq.token_ids ≡ []
      → decode true (byte_row prompt seq).response_ids ≡ take (suc r) seq.text
  unfolding make_row response_ids_of
  decode-response_ids prompt seq r hr small text_bytes no_ids =
      ap
        (λ n.
          decode true (right_pad_into_row (response_ids_of byte_tokenizer options seq) n (pos 0)))
        (ap pos_part hr)
      ∙ ap (λ ids. decode true (right_pad_into_row ids (suc r) (pos 0))) encoded
      ∙ decode-right_pad_into_row (encode_with (response_encode options) seq.text) (suc r)
          (length-encode_with (response_encode options) r seq.text as_given)
      ∙ decode-encode_with (response_encode options) seq.text text_bytes
      ∙ ap (λ m. kept false m seq.text) as_given
    where
      as_given : cast_int32 options.max_response_tokens ≡ pos (suc r)
      as_given = ap cast_int32 hr ∙ cast_int32-pos (suc r) small

      encoded :
          response_ids_of byte_tokenizer options seq
          ≡ encode_with (response_encode options) seq.text
      encoded =
          let none_given : (length seq.token_ids == 0) ≡ true =
            ap (λ (v : List ℕ). length v == 0) no_ids in
          rw none_given

  -- With the byte tokenizer and positive limits below 2^31, decoding the rows of a prompt and of a
  -- response, both of bytes, whose ids the transport did not give returns their texts as far as the
  -- limits let them: the response up to max_response_tokens bytes, the prompt up to
  -- max_prompt_tokens bytes, one fewer behind a bos.
  pub decode-make_row :
      (prompt : List ℕ) (seq : RolloutSequence) (p r : ℕ)
      → options.max_prompt_tokens ≡ pos (suc p)
      → options.max_response_tokens ≡ pos (suc r)
      → suc p < 2 ^ 31
      → suc r < 2 ^ 31
      → AllBytes prompt
      → AllBytes seq.text
      → seq.token_ids ≡ []
      → (decode true (byte_row prompt seq).prompt_ids
          ≡ (if options.add_bos then take p prompt else take (suc p) prompt))
        × (decode true (byte_row prompt seq).response_ids ≡ take (suc r) seq.text)
  decode-make_row prompt seq p r hp hr small_p small_r prompt_bytes text_bytes no_ids = (
    decode-prompt_ids prompt seq p hp small_p prompt_bytes,
    decode-response_ids prompt seq r hr small_r text_bytes no_ids,
  )
