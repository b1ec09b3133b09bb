-- ===== src/Batch/Tests.antt =====
-- A batch of two sequences of one prompt, and the theorems applied to it.
use cverl.Base.{
  ℕ, ◌≡◌, refl, true, List, [], ◌∷◌, some, pos, length, get_elem?, All, Bytes, codes, ok, err,
  map_result, arith,
}
use cverl.Reward.Defs.{Gsm8kRewardOptions, strict}
use cverl.Tokenizer.Defs.{push_bytes, encode_with, decode}
use cverl.Transport.Messages.{RolloutSequence, RolloutResponse}
use cverl.Batch.Defs.{
  byte_tokenizer, RolloutBatchOptions, RolloutRow, Floats, left_pad_into_row, response_ids_of,
  make_row, build_rows, build_gsm8k_rollout_batch,
}
use cverl.Batch.Cache.{fresh_row, build_gsm8k_rollout_batch-fresh_row}
use cverl.Batch.Rows.{make_row-positions, HasShape, build_gsm8k_rollout_batch-HasShape}
use cverl.Batch.Texts.{byte_row, decode-make_row}

abbrev reward_options : Gsm8kRewardOptions ℕ
reward_options = record {
  method = strict;
  correct_score = 1;
  format_score = 0;
  no_answer_score = 0;
  solution_clip_chars = 300;
}

abbrev floats : Floats ℕ ℕ
floats = record { to_float = λ x. x; zero_f = 0; one_f = 1 }

abbrev options : RolloutBatchOptions
options = record {
  max_prompt_tokens = pos 4;
  max_response_tokens = pos 3;
  add_bos = true;
  add_eos = true;
}

abbrev first : RolloutSequence
first = record {
  prompt_index = 0;
  sample_index = 0;
  text = codes "#### 5";
  token_ids = [];
  logprobs = [];
  finish_reason = codes "stop";
}

abbrev second : RolloutSequence
second = record first { sample_index = 1; text = codes "x"; token_ids = 9 ∷ 7 ∷ [] }

abbrev response : RolloutResponse
response = record { request_id = 1; sequences = first ∷ second ∷ []; metrics = [] }

abbrev prompts : List Bytes
prompts = codes "2+3" ∷ []

abbrev golds : List Bytes
golds = codes "#### 5" ∷ []

prompt_row :
    (byte_row floats options reward_options golds (codes "ab") first).prompt_ids
    ≡ pos 0 ∷ pos 1 ∷ pos 101 ∷ pos 102 ∷ []
unfolding make_row left_pad_into_row encode_with push_bytes
prompt_row = refl

build_gsm8k_rollout_batch-fresh_row_example :
    build_gsm8k_rollout_batch floats byte_tokenizer options reward_options response prompts golds
    ≡ map_result
        (fresh_row floats byte_tokenizer options reward_options prompts golds)
        response.sequences
build_gsm8k_rollout_batch-fresh_row_example =
    build_gsm8k_rollout_batch-fresh_row floats byte_tokenizer options reward_options prompts golds
      response

abbrev row : RolloutRow ℕ
row = make_row floats byte_tokenizer options reward_options golds [] second

make_row-positions_example :
    (get_elem? row.response_mask 1 ≡ some 1)
    × (get_elem? row.token_rewards 1 ≡ some row.scalar_reward)
unfolding response_ids_of
make_row-positions_example =
    make_row-positions floats byte_tokenizer options reward_options golds [] second 1 (omega arith)

built : List (RolloutRow ℕ)
unfolding build_gsm8k_rollout_batch build_rows
built =
    elim (build_gsm8k_rollout_batch floats byte_tokenizer options reward_options response prompts
      golds) [ err e ↦ [] | ok rows ↦ rows ]

build_gsm8k_rollout_batch-built :
    build_gsm8k_rollout_batch floats byte_tokenizer options reward_options response prompts golds
    ≡ ok built
unfolding build_gsm8k_rollout_batch build_rows built
build_gsm8k_rollout_batch-built = refl

build_gsm8k_rollout_batch-HasShape_example :
    (length built ≡ 2) × All (HasShape floats byte_tokenizer options reward_options) built
build_gsm8k_rollout_batch-HasShape_example =
    build_gsm8k_rollout_batch-HasShape floats byte_tokenizer options reward_options response prompts
      golds built build_gsm8k_rollout_batch-built

decode-make_row_example :
    (decode true (byte_row floats options reward_options golds (codes "2+3") first).prompt_ids
      ≡ codes "2+3")
    × (decode true (byte_row floats options reward_options golds (codes "2+3") first).response_ids
        ≡ codes "###")
decode-make_row_example =
    decode-make_row floats options reward_options golds (codes "2+3") first 3 2 refl refl
      (omega arith) (omega arith) (omega arith, (omega arith, (omega arith, tt)))
      (omega arith, (omega arith, (omega arith, (omega arith, (omega arith, (omega arith, tt))))))
      refl
