-- ===== src/Reward/Tests.antt =====
-- Runs of the reward functions, and instances of the theorems about them.
use mathlib.Core.List.{flatten}
use cverl.Base.{ℕ, ◌≡◌, ◌≢◌, refl, [], ◌∷◌, ◌++◌, none, some, All, Bytes, codes, arith}
use cverl.Reward.Defs.{
  Gsm8kRewardOptions, strict, flexible, marker, extract_strict, strict_loop, find_number_tokens,
  token_loop, number_run, after_run, is_number_char, strip_prefix, after_marker, first_number,
  extract_by, extract_gsm8k_answer, clip_tail, compute_gsm8k_reward,
}
use cverl.Reward.Strict.{matches, last_or, extract_strict-matches}
use cverl.Reward.Tokens.{
  AllNumber, Tokenizes, number_chars, find_number_tokens-lem, find_number_tokens-run,
}
use cverl.Reward.Gold.{unclean_answer}
use cverl.Reward.Correct.{strict_correct}

-- Scores 1, 0 and 0, here over ℕ.
abbrev options : Gsm8kRewardOptions ℕ
options = record {
  method = strict;
  correct_score = 2;
  format_score = 1;
  no_answer_score = 0;
  solution_clip_chars = 300;
}

abbrev flexible_options : Gsm8kRewardOptions ℕ
flexible_options = record options { method = flexible }

abbrev solution : Bytes
solution = codes "Half is 3. #### 3 no, #### 12"

last_answer : extract_strict solution ≡ some (codes "12")
unfolding extract_strict strict_loop after_marker strip_prefix number_run after_run is_number_char
last_answer = refl

hyphen : find_number_tokens (codes "3-4") ≡ codes "3-4" ∷ []
unfolding find_number_tokens token_loop number_run after_run is_number_char
hyphen = refl

extract_strict-matches_example : extract_strict solution ≡ last_or none (matches solution)
extract_strict-matches_example = extract_strict-matches solution

find_number_tokens-lem_example :
    ((flatten (find_number_tokens solution) ≡ number_chars solution)
      × All (λ token. (token ≢ []) × AllNumber token) (find_number_tokens solution))
    × Tokenizes solution (find_number_tokens solution)
find_number_tokens-lem_example = find_number_tokens-lem solution

find_number_tokens-run_example : find_number_tokens (codes "3-4") ≡ codes "3-4" ∷ []
unfolding is_number_char
find_number_tokens-run_example =
    find_number_tokens-run (codes "3-4") (λ e. cc) (refl, (refl, (refl, tt)))

-- The right number, written with a thousands separator in both places.
unclean_answer_example :
    compute_gsm8k_reward (codes "1,200") (codes "#### 1,200") flexible_options ≡ 1
unfolding extract_gsm8k_answer extract_by find_number_tokens token_loop number_run after_run
    is_number_char clip_tail first_number
unclean_answer_example =
    unclean_answer flexible_options (codes "1,200") (codes "#### 1,200") (codes "1,200") refl
      (λ clean. cc (clean.1.0.0))

strict_correct_example :
    compute_gsm8k_reward
      (codes "Half is 3. " ++ (marker ++ (codes "12" ++ codes "\n")))
      (codes "12")
      options
    ≡ 2
unfolding matches strip_prefix is_number_char
strict_correct_example =
    strict_correct options (codes "Half is 3. ") (codes "12") (codes "\n") refl (omega arith)
      (λ e. cc) refl refl (omega arith)
