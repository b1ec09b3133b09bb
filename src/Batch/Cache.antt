-- ===== src/Batch/Cache.antt =====
-- The cache of prompt encodings is not observable: the batch is that of a builder without a cache.
use cverl.Base.{
  ℕ, zero, suc, ◌≡◌, refl, ap, sym, ◌∙◌, Bool, true, false, not, ◌||◌, Option, none, some, List, [],
  ◌∷◌, ℤ, pos, leb_ℤ, leb, ◌==◌, length, get_elem?, set, replicate, Bytes, Result, ok, err, ◌>>◌,
  throw_if, invalid_argument, out_of_range, map_result, Bool-cases, ◌⊎◌, if◌then◌else◌, inl, inr,
}
use cverl.Reward.Defs.{Gsm8kRewardOptions}
use cverl.Tokenizer.Defs.{EncodeOptions}
use cverl.Transport.Messages.{RolloutSequence, RolloutResponse}
use cverl.Batch.Defs.{
  Tokenizer, RolloutBatchOptions, elem, PromptCache, prompt_encode, fill_cache, cached_encode,
  RolloutRow, Floats, make_row, build_rows, build_gsm8k_rollout_batch,
}

some-injective {ℓ} : {A : Type ℓ} {a b : A} → some a ≡ some b → a ≡ b
some-injective h = cc

get_elem?-set {ℓ} :
    {A : Type ℓ} (xs : List A) (i j : ℕ) {v a : A}
    → get_elem? (set xs i v) j ≡ some a
    → ((j ≡ i) × (v ≡ a)) ⊎ (get_elem? xs j ≡ some a)
get_elem?-set [] i j h = inr h
get_elem?-set (x ∷ xs) zero zero h = inl (refl, some-injective h)
get_elem?-set (x ∷ xs) zero (suc j) h = inr h
get_elem?-set (x ∷ xs) (suc i) zero h = inr h
get_elem?-set (x ∷ xs) (suc i) (suc j) h = elim (get_elem?-set xs i j h) [
  | inl (here, same) ↦ inl (ap suc here, same)
  | inr there ↦ inr there
]

module _ (tokenizer : Tokenizer) (encode_options : EncodeOptions) (prompts : List Bytes) where
  -- What the cache holds for a prompt is the prompt's encoding.
  abbrev IsCache : PromptCache → Type 0
  IsCache cache =
      (i : ℕ) (ids : List ℤ)
      → get_elem? cache i ≡ some (some ids)
      → ids ≡ tokenizer.encode encode_options (elem prompts i)

  replicate-IsCache : (n : ℕ) → IsCache (replicate n none)
  replicate-IsCache zero i ids h = cc
  replicate-IsCache (suc n) zero ids h = cc
  replicate-IsCache (suc n) (suc i) ids h = absurd (nothing n i h)
    where
      nothing : (n i : ℕ) → get_elem? (replicate n none) i ≡ some (some ids) → ⊥
      nothing zero i h = cc
      nothing (suc n) zero h = cc
      nothing (suc n) (suc i) h = nothing n i h

  fill_cache-IsCache :
      (cache : PromptCache) (i : ℕ) (o : Option (Option (List ℤ)))
      → get_elem? cache i ≡ o
      → IsCache cache
      → (let fresh = tokenizer.encode encode_options (elem prompts i) in
          ((fill_cache cache i fresh o).1 ≡ fresh) × IsCache (fill_cache cache i fresh o).0)
  fill_cache-IsCache cache i (some (some ids)) h valid = (valid i ids h, valid)
  fill_cache-IsCache cache i none h valid = (refl, valid)
  fill_cache-IsCache cache i (some none) h valid = (refl, filled)
    where
      filled : IsCache (set cache i (some (tokenizer.encode encode_options (elem prompts i))))
      filled j ids found = elim (get_elem?-set cache i j found) [
        | inl (here, same) ↦
            sym (some-injective same)
            ∙ ap (λ k. tokenizer.encode encode_options (elem prompts k)) (sym here)
        | inr there ↦ valid j ids there
      ]

  cached_encode-IsCache :
      (cache : PromptCache) (i : ℕ)
      → IsCache cache
      → (let x = cached_encode tokenizer encode_options prompts cache i in
          (x.1 ≡ tokenizer.encode encode_options (elem prompts i)) × IsCache x.0)
  unfolding cached_encode
  cached_encode-IsCache cache i valid = fill_cache-IsCache cache i (get_elem? cache i) refl valid

module _ {Score Float : Type 0} (floats : Floats Score Float) (tokenizer : Tokenizer)
    (options : RolloutBatchOptions) (reward_options : Gsm8kRewardOptions Score)
    (prompts ground_truths : List Bytes) where
  -- The row of a sequence, its prompt encoded anew.
  unfoldable pub fresh_row : RolloutSequence → Result (RolloutRow Float)
  fresh_row seq = do
    throw_if (leb (length prompts) seq.prompt_index) out_of_range
    ok (
        make_row floats tokenizer options reward_options ground_truths
          (tokenizer.encode (prompt_encode options) (elem prompts seq.prompt_index)) seq)

  build_rows-fresh_row :
      (cache : PromptCache) (seqs : List RolloutSequence)
      → IsCache tokenizer (prompt_encode options) prompts cache
      → build_rows floats tokenizer options reward_options prompts ground_truths cache seqs
        ≡ map_result fresh_row seqs
  unfolding build_rows map_result fresh_row
  build_rows-fresh_row cache [] valid = refl
  build_rows-fresh_row cache (seq ∷ seqs) valid =
      elim (Bool-cases (leb (length prompts) seq.prompt_index)) [
        | inl bad ↦ rw bad
        | inr good ↦
            let encoded =
              cached_encode-IsCache tokenizer (prompt_encode options) prompts cache seq.prompt_index
                valid in
            rw (
              good,
              build_rows-fresh_row
                  (cached_encode tokenizer (prompt_encode options) prompts cache seq.prompt_index).0
                  seqs encoded.1,
              encoded.0,
            )
      ]

  -- The builder throws invalid_argument if the prompts and the ground truths differ in number, a
  -- limit is not positive or there is no sequence; otherwise it gives for each sequence, in their
  -- order, the row that a builder without a cache gives, or throws out_of_range at a prompt index
  -- outside the prompts.
  pub build_gsm8k_rollout_batch-fresh_row :
      (response : RolloutResponse)
      → build_gsm8k_rollout_batch floats tokenizer options reward_options response prompts
          ground_truths
        ≡ (if not (length prompts == length ground_truths)
              || (leb_ℤ options.max_prompt_tokens (pos 0)
                  || leb_ℤ options.max_response_tokens (pos 0)
                  || (length response.sequences == 0))
            then err invalid_argument
            else map_result fresh_row response.sequences)
  unfolding build_gsm8k_rollout_batch
  build_gsm8k_rollout_batch-fresh_row response =
      rw
        (build_rows-fresh_row (replicate (length prompts) none) response.sequences
          (replicate-IsCache tokenizer (prompt_encode options) prompts (length prompts)))
        (three_checks (not (length prompts == length ground_truths))
          (leb_ℤ options.max_prompt_tokens (pos 0) || leb_ℤ options.max_response_tokens (pos 0))
          (length response.sequences == 0) (map_result fresh_row response.sequences))
    where
      three_checks :
          (a b c : Bool) (rest : Result (List (RolloutRow Float)))
          → (throw_if a invalid_argument
              >> (throw_if b invalid_argument >> (throw_if c invalid_argument >> rest)))
            ≡ (if a || (b || c) then err invalid_argument else rest)
      three_checks true b c rest = refl
      three_checks false true c rest = refl
      three_checks false false true rest = refl
      three_checks false false false rest = refl
