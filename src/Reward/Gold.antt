-- ===== src/Reward/Gold.antt =====
-- The reward: what the normalised gold answer looks like, and when an answer is scored correct.
use cverl.Base.{
  bytes_equal, bytes_equal_iff, ◌≤◌, ◌≡◌, sym, subst, inl, inr, false, [], ◌∷◌, some, Bool-cases,
  Option-cases, ◌==◌, All, Bytes, arith,
}
use cverl.Reward.Defs.{
  Gsm8kRewardOptions, clip_tail, strip_format_chars, extract_strict, extract_by,
  extract_gsm8k_answer, strip_spaces, default_clip_chars, normalize_gsm8k_ground_truth,
  compute_gsm8k_reward,
}

-- No thousands separator and no currency sign.
abbrev pub IsClean : Bytes → Type 0
IsClean = All (λ c. ((c == b',') ≡ false) × ((c == b'$') ≡ false))

abbrev pub IsDigits : Bytes → Type 0
IsDigits = All (λ c. (b'0' ≤ c) × (c ≤ b'9'))

strip_format_chars-IsClean : (s : Bytes) → IsClean (strip_format_chars s)
unfolding strip_format_chars
strip_format_chars-IsClean [] = tt
strip_format_chars-IsClean (c ∷ cs) = ground (arith, strip_format_chars-IsClean cs)

strip_spaces-IsClean : (s : Bytes) → IsClean (strip_spaces s)
unfolding strip_spaces
strip_spaces-IsClean [] = tt
strip_spaces-IsClean (c ∷ cs) = ground (arith, strip_spaces-IsClean cs)

-- The normalised gold answer never holds ',' or '$', whatever the ground truth.
normalize_gsm8k_ground_truth-IsClean :
    (ground_truth : Bytes) → IsClean (normalize_gsm8k_ground_truth ground_truth)
unfolding normalize_gsm8k_ground_truth extract_by
normalize_gsm8k_ground_truth-IsClean ground_truth =
    elim (Option-cases (extract_strict (clip_tail ground_truth default_clip_chars))) [
      | inl missing ↦ rw missing (strip_spaces-IsClean ground_truth)
      | inr (raw, found) ↦ rw found (strip_format_chars-IsClean raw)
    ]

module _ {Score : Type 0} (options : Gsm8kRewardOptions Score) where
  -- An extracted answer that holds a ',' or a '$' is scored as a wrong one, whatever the ground
  -- truth: the gold answer is stripped of these characters, the answer of the flexible method
  -- is not.
  pub unclean_answer :
      (solution ground_truth answer : Bytes)
      → extract_gsm8k_answer solution options ≡ some answer
      → ¬ IsClean answer
      → compute_gsm8k_reward solution ground_truth options ≡ options.format_score
  unfolding compute_gsm8k_reward
  unclean_answer solution ground_truth answer found unclean =
      rw found (elim (Bool-cases (bytes_equal answer (normalize_gsm8k_ground_truth ground_truth))) [
        | inl same ↦ absurd (
            unclean (
              subst IsClean (sym ((bytes_equal_iff _ _).0 same))
                (normalize_gsm8k_ground_truth-IsClean ground_truth)))
        | inr different ↦ rw different
      ])
