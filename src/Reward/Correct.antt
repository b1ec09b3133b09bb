-- ===== src/Reward/Correct.antt =====
-- From end to end: a solution that ends with its marked answer is scored correct.
use cverl.Base.{
  ℕ, ◌-◌, ◌≤◌, ◌≡◌, ◌≢◌, refl, ap, sym, ◌∙◌, true, false, [], ◌∷◌, ◌++◌, Option, none, some, leb,
  length, length-append, drop, drop-append, All-drop, Bytes, Bool-cases, arith, inl, inr,
}
use mathlib.Core.List.{append-nil}
use cverl.Reward.Defs.{
  Gsm8kRewardOptions, strict, is_number_char, clip_tail, strip_format_chars, number_run, after_run,
  marker, strip_prefix, extract_by, extract_gsm8k_answer, strip_spaces, default_clip_chars,
  normalize_gsm8k_ground_truth, compute_gsm8k_reward,
}
use cverl.Reward.Strict.{
  matches, match_at, match_of, last_or, matches-after_run, matches-marker, extract_strict-matches,
  last_or-append,
}
use cverl.Base.{bytes_equal_iff}
use cverl.Reward.Gold.{IsDigits}

digit_is_number : (c : ℕ) → b'0' ≤ c → c ≤ b'9' → is_number_char c ≡ true
unfolding is_number_char
digit_is_number c lo hi = ground arith

strip_format_chars-IsDigits : (s : Bytes) → IsDigits s → strip_format_chars s ≡ s
unfolding strip_format_chars
strip_format_chars-IsDigits [] h = refl
strip_format_chars-IsDigits (c ∷ cs) h = ground (arith, strip_format_chars-IsDigits cs h.1)

strip_spaces-IsDigits : (s : Bytes) → IsDigits s → strip_spaces s ≡ s
unfolding strip_spaces
strip_spaces-IsDigits [] h = refl
strip_spaces-IsDigits (c ∷ cs) h = ground (arith, strip_spaces-IsDigits cs h.1)

-- The text goes on with no number character.
abbrev pub Stops : Bytes → Type 0
Stops [] = Unit
Stops (c ∷ cs) = is_number_char c ≡ false

run_of_digits :
    (s post : Bytes)
    → IsDigits s
    → Stops post
    → (number_run (s ++ post) ≡ s) × (after_run (s ++ post) ≡ post)
unfolding number_run after_run
run_of_digits [] [] h k = (refl, refl)
run_of_digits [] (c ∷ cs) h k = (rw k, rw k)
run_of_digits (c ∷ s) post h k =
    let number = digit_is_number c h.0.0 h.0.1 in
    let (run, after) = run_of_digits s post h.1 k in (rw number (ap (◌∷◌ c) run), rw number after)

matches-digits : (s : Bytes) → IsDigits s → matches s ≡ []
matches-digits s h =
    matches-after_run s
    ∙ ap matches (ap after_run (sym (append-nil s)) ∙ (run_of_digits s [] h tt).1)
    ∙ (unfold matches in refl)

clip_tail-IsDigits : (s : Bytes) (n : ℕ) → IsDigits s → IsDigits (clip_tail s n)
unfolding clip_tail
clip_tail-IsDigits s n h = elim (Bool-cases (leb (length s) n)) [
  | inl short ↦ rw short h
  | inr long ↦ rw long (All-drop _ (length s - n) s h)
]

normalize-IsDigits : (gold : Bytes) → IsDigits gold → normalize_gsm8k_ground_truth gold ≡ gold
unfolding normalize_gsm8k_ground_truth extract_by
normalize-IsDigits gold h =
    rw
      (
        extract_strict-matches (clip_tail gold default_clip_chars),
        matches-digits _ (clip_tail-IsDigits gold default_clip_chars h),
      )
      (strip_spaces-IsDigits gold h)

-- Clipping keeps a tail that fits.
clip_tail-append :
    (pre tail : Bytes) (n : ℕ)
    → length tail ≤ n
    → (kept : Bytes) × (clip_tail (pre ++ tail) n ≡ kept ++ tail)
unfolding clip_tail
clip_tail-append pre tail n h = elim (Bool-cases (leb (length (pre ++ tail)) n)) [
  | inl short ↦ (pre, rw short)
  | inr long ↦
      let k = length (pre ++ tail) - n in
      (drop k pre, rw long (drop-append k pre tail (omega (arith, length-append pre tail))))
]

last_or-matches :
    (pre tail m : Bytes)
    → matches tail ≡ m ∷ []
    → (last : Option Bytes) → last_or last (matches (pre ++ tail)) ≡ some m
unfolding matches
last_or-matches [] tail m h last = ap (last_or last) h
last_or-matches (c ∷ pre) tail m h last =
    last_or-append last (match_at (strip_prefix marker (c ∷ (pre ++ tail)))) (matches (pre ++ tail))
    ∙ last_or-matches pre tail m h _

matches-answer :
    (gold post : Bytes)
    → IsDigits gold
    → gold ≢ []
    → Stops post
    → matches post ≡ []
    → matches (marker ++ (gold ++ post)) ≡ gold ∷ []
matches-answer gold post digits ne stops rest =
    let (run, after) = run_of_digits gold post digits stops in
    let behind : matches (gold ++ post) ≡ [] =
      matches-after_run (gold ++ post) ∙ ap matches after ∙ rest in
    matches-marker (gold ++ post)
    ∙ ap (◌++◌ (match_of (gold ++ post))) behind
    ∙ append-nil (match_of (gold ++ post))
    ∙ one gold run ne
  where
    one : (g : Bytes) → number_run (gold ++ post) ≡ g → g ≢ [] → match_of (gold ++ post) ≡ g ∷ []
    one [] e n = absurd (n refl)
    one (c ∷ g) e n = rw e

-- With the strict method, a solution that ends with "#### ", the gold number, which is not empty and
-- holds digits only, and a rest that holds no further match and does not go on with a number
-- character, gets the correct score, whatever stands before that tail, if it fits the clip length.
pub strict_correct :
    {Score : Type 0} (options : Gsm8kRewardOptions Score) (pre gold post : Bytes)
    → options.method ≡ strict
    → IsDigits gold
    → gold ≢ []
    → Stops post
    → matches post ≡ []
    → length (marker ++ (gold ++ post)) ≤ options.solution_clip_chars
    → compute_gsm8k_reward (pre ++ (marker ++ (gold ++ post))) gold options ≡ options.correct_score
unfolding compute_gsm8k_reward extract_gsm8k_answer extract_by
strict_correct options pre gold post method digits ne stops rest fits =
    let tail = marker ++ (gold ++ post) in
    let (kept, clipped) = clip_tail-append pre tail options.solution_clip_chars fits in
    let found =
      last_or-matches kept tail gold (matches-answer gold post digits ne stops rest) none in
    rw (
      method,
      clipped,
      extract_by,
      extract_strict-matches (kept ++ tail),
      found,
      strip_format_chars-IsDigits gold digits,
      normalize-IsDigits gold digits,
      (bytes_equal_iff gold gold).1 refl,
    )
