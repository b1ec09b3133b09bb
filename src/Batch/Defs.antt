-- ===== src/Batch/Defs.antt =====
-- build_gsm8k_rollout_batch. A tensor of B rows is the list of its rows, each written whole. An id is
-- an integer.
use cverl.Base.{
  signed, cast_int32, ℕ, ◌-◌, min, Bool, false, not, ◌||◌, Option, none, some, List, [], ◌∷◌, ◌++◌,
  ℤ, pos, map, pos_part, leb_ℤ, ltb, leb, ◌==◌, if◌then◌else◌, length, get_elem?, set, take, drop,
  replicate, Bytes, Result, ok, ◌>>=◌, ◌>>◌, throw_if, invalid_argument, out_of_range,
}
use cverl.Tokenizer.Defs.{EncodeOptions, encode_with}
use cverl.Reward.Defs.{Gsm8kRewardOptions, compute_gsm8k_reward}
use cverl.Transport.Messages.{RolloutSequence, RolloutResponse}

-- The interface of the tokenizers, as far as the builder uses it.
pub record Tokenizer : Type 0 where
  pub encode : EncodeOptions → Bytes → List ℤ
  pub pad_id : ℤ

abbrev pub byte_tokenizer : Tokenizer
byte_tokenizer = record { encode = encode_with; pad_id = pos 0 }

pub record RolloutBatchOptions : Type 0 where
  pub max_prompt_tokens : ℤ
  pub max_response_tokens : ℤ
  pub add_bos : Bool
  pub add_eos : Bool

unfoldable pub left_pad_into_row : List ℤ → ℕ → ℤ → List ℤ
left_pad_into_row ids row_len pad_id =
    let kept = min (length ids) row_len in
    let leading_pad = row_len - kept in
    replicate leading_pad pad_id ++ take kept (drop (length ids - kept) ids)

unfoldable pub right_pad_into_row : List ℤ → ℕ → ℤ → List ℤ
right_pad_into_row ids row_len pad_id =
    let kept = min (length ids) row_len in take kept ids ++ replicate (row_len - kept) pad_id

-- `v[i]` behind its range check.
abbrev pub elem : List Bytes → ℕ → Bytes
elem texts i = elim (get_elem? texts i) [ none ↦ [] | some text ↦ text ]

-- prompt_token_cache, with `none` where prompt_cached is false.
abbrev pub PromptCache : Type 0
PromptCache = List (Option (List ℤ))

abbrev pub prompt_encode : RolloutBatchOptions → EncodeOptions
prompt_encode options = record {
  add_bos = options.add_bos;
  add_eos = false;
  max_tokens = cast_int32 options.max_prompt_tokens;
}

abbrev pub response_encode : RolloutBatchOptions → EncodeOptions
response_encode options = record {
  add_bos = false;
  add_eos = options.add_eos;
  max_tokens = cast_int32 options.max_response_tokens;
}

-- What the cache holds or, if it holds nothing, the encoding, which it then keeps.
abbrev pub fill_cache : PromptCache → ℕ → List ℤ → Option (Option (List ℤ)) → PromptCache × List ℤ
fill_cache cache i fresh (some (some ids)) = (cache, ids)
fill_cache cache i fresh (some none) = (set cache i (some fresh), fresh)
fill_cache cache i fresh none = (cache, fresh)

unfoldable pub cached_encode :
    Tokenizer → EncodeOptions → List Bytes → PromptCache → ℕ → PromptCache × List ℤ
cached_encode tokenizer encode_options prompts cache i =
    fill_cache cache i (tokenizer.encode encode_options (elem prompts i)) (get_elem? cache i)

-- The ids of a response, encoded here if the transport gave none.
unfoldable pub response_ids_of : Tokenizer → RolloutBatchOptions → RolloutSequence → List ℤ
response_ids_of tokenizer options seq =
    if length seq.token_ids == 0
    then tokenizer.encode (response_encode options) seq.text
    else map signed seq.token_ids

-- The rows of the tensors that belong to one sequence.
pub record RolloutRow (Float : Type 0) : Type 0 where
  pub prompt_ids : List ℤ
  pub response_ids : List ℤ
  pub response_mask : List Float
  pub group_id : ℕ
  pub scalar_reward : Float
  pub token_rewards : List Float
  pub response_text : Bytes

-- The conversion of a reward to a float, and the floats 0 and 1.
pub record Floats (Score Float : Type 0) : Type 0 where
  pub to_float : Score → Float
  pub zero_f : Float
  pub one_f : Float

module _ {Score Float : Type 0} (floats : Floats Score Float) (tokenizer : Tokenizer)
    (options : RolloutBatchOptions) (reward_options : Gsm8kRewardOptions Score) where
  -- The mask and the rewards of a row whose first real_len ids are real.
  abbrev pub mask_row : ℕ → List Float
  mask_row real_len =
      replicate real_len floats.one_f
      ++ replicate (pos_part options.max_response_tokens - real_len) floats.zero_f

  abbrev pub reward_row : Float → ℕ → List Float
  reward_row reward real_len =
      let zeros = replicate (pos_part options.max_response_tokens) floats.zero_f in
      if ltb 0 real_len then set zeros (real_len - 1) reward else zeros

  unfoldable pub make_row : List Bytes → List ℤ → RolloutSequence → RolloutRow Float
  make_row ground_truths prompt_ids seq =
      let ids = response_ids_of tokenizer options seq in
      let real_len = min (length ids) (pos_part options.max_response_tokens) in
      let reward =
        floats.to_float
          (compute_gsm8k_reward seq.text (elem ground_truths seq.prompt_index) reward_options) in
      record {
        prompt_ids =
            left_pad_into_row prompt_ids (pos_part options.max_prompt_tokens) tokenizer.pad_id;
        response_ids =
            right_pad_into_row ids (pos_part options.max_response_tokens) tokenizer.pad_id;
        response_mask = mask_row real_len;
        group_id = seq.prompt_index;
        scalar_reward = reward;
        token_rewards = reward_row reward real_len;
        response_text = seq.text;
      }

  -- The loop over the sequences.
  unfoldable pub build_rows :
      List Bytes
      → List Bytes
      → PromptCache
      → List RolloutSequence
      → Result (List (RolloutRow Float))
  build_rows prompts ground_truths cache [] = ok []
  build_rows prompts ground_truths cache (seq ∷ seqs) = do
    throw_if (leb (length prompts) seq.prompt_index) out_of_range
    let encoded = cached_encode tokenizer (prompt_encode options) prompts cache seq.prompt_index
    rows ← build_rows prompts ground_truths encoded.0 seqs
    ok (make_row ground_truths encoded.1 seq ∷ rows)

  unfoldable pub build_gsm8k_rollout_batch :
      RolloutResponse → List Bytes → List Bytes → Result (List (RolloutRow Float))
  build_gsm8k_rollout_batch response prompts ground_truths = do
    throw_if (not (length prompts == length ground_truths)) invalid_argument
    throw_if (leb_ℤ options.max_prompt_tokens (pos 0) || leb_ℤ options.max_response_tokens (pos 0))
        invalid_argument
    throw_if (length response.sequences == 0) invalid_argument
    build_rows prompts ground_truths (replicate (length prompts) none) response.sequences
