-- ===== src/Reward/Defs.antt =====
-- The functions of gsm8k.cc. A `std::string` is the list of its bytes; `std::isdigit` and
-- `std::isspace` are those of the C locale; a score is a value of a parameter type.
use mathlib.Core.List.{reverse}
use cverl.Base.{
  ℕ, zero, suc, ◌+◌, ◌-◌, Bool, true, false, not, ◌&&◌, ◌||◌, List, [], ◌∷◌, Option, none, some,
  ◌==◌, leb, if◌then◌else◌, length, drop, Bytes, bytes_equal, is_digit, is_space, Result, ok, ◌>>◌,
  throw_if, invalid_argument,
}

pub data Gsm8kExtractionMethod : Type 0 where
  strict flexible : Gsm8kExtractionMethod

pub record Gsm8kRewardOptions (Score : Type 0) : Type 0 where
  pub method : Gsm8kExtractionMethod
  pub correct_score : Score
  pub format_score : Score
  pub no_answer_score : Score
  pub solution_clip_chars : ℕ

unfoldable pub is_number_char : ℕ → Bool
is_number_char c = is_digit c || c == b'.' || c == b',' || c == b'-'

unfoldable pub clip_tail : Bytes → ℕ → Bytes
clip_tail s max_len = if leb (length s) max_len then s else drop (length s - max_len) s

unfoldable pub strip_format_chars : Bytes → Bytes
strip_format_chars [] = []
strip_format_chars (c ∷ cs) =
    let rest = strip_format_chars cs in
    if not (c == b',') && not (c == b'$') then c ∷ rest else rest

-- The run of number characters at the front of the text, and what follows it: the inner loops
-- of `find_number_tokens` and `extract_strict`.
unfoldable pub number_run : Bytes → Bytes
number_run [] = []
number_run (c ∷ cs) = let rest = number_run cs in if is_number_char c then c ∷ rest else []

unfoldable pub after_run : Bytes → Bytes
after_run [] = []
after_run (c ∷ cs) = let rest = after_run cs in if is_number_char c then rest else c ∷ cs

-- The outer loop on the text from position i; each round takes a byte or more.
unfoldable pub token_loop : ℕ → Bytes → List Bytes
token_loop zero text = []
token_loop (suc fuel) [] = []
token_loop (suc fuel) (c ∷ cs) = elim (is_number_char c) [
  | true ↦ number_run (c ∷ cs) ∷ token_loop fuel (after_run (c ∷ cs))
  | false ↦ token_loop fuel cs
]

unfoldable pub find_number_tokens : Bytes → List Bytes
find_number_tokens text = token_loop (length text) text

abbrev pub marker : Bytes
marker = b'#' ∷ b'#' ∷ b'#' ∷ b'#' ∷ b' ' ∷ []

-- The text behind a prefix.
unfoldable pub strip_prefix : Bytes → Bytes → Option Bytes
strip_prefix [] text = some text
strip_prefix (p ∷ ps) [] = none
strip_prefix (p ∷ ps) (c ∷ cs) = let rest = strip_prefix ps cs in if c == p then rest else none

-- `text.find(marker, pos)`: the text behind the first marker.
unfoldable pub after_marker : Bytes → Option Bytes
after_marker [] = none
after_marker (c ∷ cs) = elim (strip_prefix marker (c ∷ cs)) [
  | some rest ↦ some rest
  | none ↦ after_marker cs
]

abbrev pub is_empty : Bytes → Bool
is_empty [] = true
is_empty (c ∷ cs) = false

-- The loop of `extract_strict` on the text from `pos`; each round takes the marker at least.
unfoldable pub strict_loop : ℕ → Bytes → Option Bytes → Option Bytes
strict_loop zero text last = last
strict_loop (suc fuel) text last = elim (after_marker text) [
  | none ↦ last
  | some start ↦
      strict_loop fuel (after_run start)
        (if is_empty (number_run start) then last else some (number_run start))
]

unfoldable pub extract_strict : Bytes → Option Bytes
extract_strict text = strict_loop (length text + 1) text none

-- The first element that is neither "" nor ".".
unfoldable pub first_number : List Bytes → Option Bytes
first_number [] = none
first_number ([] ∷ tokens) = first_number tokens
first_number ((c ∷ []) ∷ tokens) =
    let rest = first_number tokens in if c == b'.' then rest else some (c ∷ [])
first_number ((c ∷ d ∷ cs) ∷ tokens) = some (c ∷ d ∷ cs)

abbrev map_strip : Option Bytes → Option Bytes
map_strip none = none
map_strip (some raw) = some (strip_format_chars raw)

unfoldable pub extract_by : Gsm8kExtractionMethod → Bytes → Option Bytes
extract_by strict clipped = map_strip (extract_strict clipped)
extract_by flexible clipped = first_number (reverse (find_number_tokens clipped))

unfoldable pub extract_gsm8k_answer :
    {Score : Type 0} → Bytes → Gsm8kRewardOptions Score → Option Bytes
extract_gsm8k_answer solution options =
    extract_by options.method (clip_tail solution options.solution_clip_chars)

-- The fallback loop of `normalize_gsm8k_ground_truth`.
unfoldable pub strip_spaces : Bytes → Bytes
strip_spaces [] = []
strip_spaces (c ∷ cs) =
    let rest = strip_spaces cs in
    if is_space c then rest else if c == b',' || c == b'$' then rest else c ∷ rest

-- The default options' strict method and clip length.
abbrev pub default_clip_chars : ℕ
default_clip_chars = 300

abbrev or_else : Option Bytes → Bytes → Bytes
or_else none fallback = fallback
or_else (some extracted) fallback = extracted

unfoldable pub normalize_gsm8k_ground_truth : Bytes → Bytes
normalize_gsm8k_ground_truth ground_truth =
    or_else (extract_by strict (clip_tail ground_truth default_clip_chars))
      (strip_spaces ground_truth)

module _ {Score : Type 0} where
  abbrev pub score_of : Option Bytes → Bytes → Gsm8kRewardOptions Score → Score
  score_of none gold options = options.no_answer_score
  score_of (some answer) gold options =
      if bytes_equal answer gold then options.correct_score else options.format_score

  unfoldable pub compute_gsm8k_reward : Bytes → Bytes → Gsm8kRewardOptions Score → Score
  compute_gsm8k_reward solution ground_truth options =
      score_of (extract_gsm8k_answer solution options) (normalize_gsm8k_ground_truth ground_truth)
        options

  unfoldable pub rewards_loop : List Bytes → List Bytes → Gsm8kRewardOptions Score → List Score
  rewards_loop [] ground_truths options = []
  rewards_loop (s ∷ solutions) [] options = []
  rewards_loop (s ∷ solutions) (g ∷ ground_truths) options =
      compute_gsm8k_reward s g options ∷ rewards_loop solutions ground_truths options

  unfoldable pub compute_gsm8k_rewards :
      List Bytes → List Bytes → Gsm8kRewardOptions Score → Result (List Score)
  compute_gsm8k_rewards solutions ground_truths options = do
    throw_if (not (length solutions == length ground_truths)) invalid_argument
    ok (rewards_loop solutions ground_truths options)
