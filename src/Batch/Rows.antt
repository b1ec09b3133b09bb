-- ===== src/Batch/Rows.antt =====
-- What stands in the rows of a batch.
use cverl.Base.{
  length-set, ℕ, zero, suc, ◌+◌, ◌-◌, ◌<◌, ◌≡◌, refl, ap, ◌∙◌, min, true, false, List, [], ◌∷◌,
  ◌++◌, none, some, ℤ, pos, pos_part, ltb, leb, ◌==◌, if◌then◌else◌, length, get_elem?, set, take,
  drop, replicate, length-append, length-take, length-drop, length-replicate, All, Bytes, ok,
  throw_if, out_of_range, invalid_argument, not, ◌||◌, leb_ℤ, >>=-eq-ok, >>-eq-ok, ok-injective,
  Bool-cases, inl, inr, subst, arith,
}
use cverl.Reward.Defs.{Gsm8kRewardOptions}
use cverl.Transport.Messages.{RolloutSequence, RolloutResponse}
use cverl.Batch.Defs.{
  Tokenizer, RolloutBatchOptions, left_pad_into_row, right_pad_into_row, PromptCache, prompt_encode,
  cached_encode, RolloutRow, response_ids_of, Floats, reward_row, make_row, build_rows,
  build_gsm8k_rollout_batch,
}

length-left_pad_into_row :
    (ids : List ℤ) (n : ℕ) (pad : ℤ) → length (left_pad_into_row ids n pad) ≡ n
unfolding left_pad_into_row
length-left_pad_into_row ids n pad =
    let kept = min (length ids) n in
    let rest = drop (length ids - kept) ids in
    let a = length-append (replicate (n - kept) pad) (take kept rest) in
    let b = length-replicate (n - kept) pad in
    let c = length-take kept rest in let d = length-drop (length ids - kept) ids in omega arith

length-right_pad_into_row :
    (ids : List ℤ) (n : ℕ) (pad : ℤ) → length (right_pad_into_row ids n pad) ≡ n
unfolding right_pad_into_row
length-right_pad_into_row ids n pad =
    let kept = min (length ids) n in
    let a = length-append (take kept ids) (replicate (n - kept) pad) in
    let b = length-replicate (n - kept) pad in let c = length-take kept ids in omega arith

get_elem?-replicate {ℓ} :
    {A : Type ℓ} (n : ℕ) (a : A) (i : ℕ) → i < n → get_elem? (replicate n a) i ≡ some a
get_elem?-replicate zero a i h = elim h [ ]
get_elem?-replicate (suc n) a zero h = refl
get_elem?-replicate (suc n) a (suc i) h = get_elem?-replicate n a i (omega arith)

-- The two parts of a mask, at each position.
get_elem?-masked {ℓ} :
    {A : Type ℓ} (a b : ℕ) (x y : A) (i : ℕ)
    → i < a + b
    → get_elem? (replicate a x ++ replicate b y) i ≡ some (if ltb i a then x else y)
get_elem?-masked zero b x y i h =
    let behind : ltb i 0 ≡ false = ground arith in
    rw behind (get_elem?-replicate b y i (omega arith))
get_elem?-masked (suc a) b x y zero h =
    let before : ltb 0 (suc a) ≡ true = ground arith in rw before
get_elem?-masked (suc a) b x y (suc i) h =
    let same : ltb (suc i) (suc a) ≡ ltb i a = ground arith in
    rw same (get_elem?-masked a b x y i (omega arith))

-- One cell set in a row of equal ones, at each position.
get_elem?-set-replicate {ℓ} :
    {A : Type ℓ} (n k : ℕ) (v z : A) (i : ℕ)
    → i < n
    → get_elem? (set (replicate n z) k v) i ≡ some (if suc i == suc k then v else z)
get_elem?-set-replicate zero k v z i h = elim h [ ]
get_elem?-set-replicate (suc n) zero v z zero h = refl
get_elem?-set-replicate (suc n) zero v z (suc i) h =
    let other : (suc (suc i) == 1) ≡ false = ground arith in
    rw other (get_elem?-replicate n z i (omega arith))
get_elem?-set-replicate (suc n) (suc k) v z zero h =
    let other : (1 == suc (suc k)) ≡ false = ground arith in rw other
get_elem?-set-replicate (suc n) (suc k) v z (suc i) h =
    let same : (suc (suc i) == suc (suc k)) ≡ (suc i == suc k) = ground arith in
    rw same (get_elem?-set-replicate n k v z i (omega arith))

module _ {Score Float : Type 0} (floats : Floats Score Float) (tokenizer : Tokenizer)
    (options : RolloutBatchOptions) (reward_options : Gsm8kRewardOptions Score) where
  get_elem?-reward_row :
      (reward : Float) (n i : ℕ)
      → i < pos_part options.max_response_tokens
      → get_elem? (reward_row floats tokenizer options reward_options reward n) i
        ≡ some (if suc i == n then reward else floats.zero_f)
  get_elem?-reward_row reward zero i h =
      let none_real : (suc i == 0) ≡ false = ground arith in
      rw none_real (get_elem?-replicate (pos_part options.max_response_tokens) floats.zero_f i h)
  get_elem?-reward_row reward (suc n) i h =
      let some_real : ltb 0 (suc n) ≡ true = ground arith in
      let last : suc n - 1 ≡ n = omega arith in
      rw (some_real, last)
        (get_elem?-set-replicate (pos_part options.max_response_tokens) n reward floats.zero_f i h)

  -- At each position of a row below the response limit: the mask is one exactly on the ids of the
  -- response, and the token rewards hold the row's reward exactly at the last of these, zero elsewhere.
  pub make_row-positions :
      (ground_truths : List Bytes) (prompt_ids : List ℤ) (seq : RolloutSequence) (i : ℕ)
      → i < pos_part options.max_response_tokens
      → (let row = make_row floats tokenizer options reward_options ground_truths prompt_ids seq in
          let real_len =
            min
              (length (response_ids_of tokenizer options seq))
              (pos_part options.max_response_tokens) in
          (get_elem? row.response_mask i
            ≡ some (if ltb i real_len then floats.one_f else floats.zero_f))
          × (get_elem? row.token_rewards i
              ≡ some (if suc i == real_len then row.scalar_reward else floats.zero_f)))
  unfolding make_row
  make_row-positions ground_truths prompt_ids seq i h =
      let size = length (response_ids_of tokenizer options seq) in
      let limit = pos_part options.max_response_tokens in
      (
        get_elem?-masked (min size limit) (limit - min size limit) floats.one_f floats.zero_f i
            (omega arith),
        get_elem?-reward_row _ (min size limit) i h,
      )

  -- Every row has the width of its tensor.
  abbrev pub HasShape : RolloutRow Float → Type 0
  HasShape row =
      (length row.prompt_ids ≡ pos_part options.max_prompt_tokens)
      × (length row.response_ids ≡ pos_part options.max_response_tokens)
      × (length row.response_mask ≡ pos_part options.max_response_tokens)
      × (length row.token_rewards ≡ pos_part options.max_response_tokens)

  make_row-HasShape :
      (ground_truths : List Bytes) (prompt_ids : List ℤ) (seq : RolloutSequence)
      → HasShape (make_row floats tokenizer options reward_options ground_truths prompt_ids seq)
  unfolding make_row
  make_row-HasShape ground_truths prompt_ids seq =
      let size = length (response_ids_of tokenizer options seq) in
      let limit = pos_part options.max_response_tokens in
      let real = min size limit in
      (
        length-left_pad_into_row prompt_ids (pos_part options.max_prompt_tokens) tokenizer.pad_id,
        length-right_pad_into_row (response_ids_of tokenizer options seq) limit tokenizer.pad_id,
        omega (
          arith,
          length-append (replicate real floats.one_f) (replicate (limit - real) floats.zero_f),
          length-replicate real floats.one_f,
          length-replicate (limit - real) floats.zero_f,
        ),
        length-reward_row _ real,
      )
    where
      length-reward_row :
          (reward : Float) (n : ℕ)
          → length (reward_row floats tokenizer options reward_options reward n)
            ≡ pos_part options.max_response_tokens
      length-reward_row reward n = elim (Bool-cases (ltb 0 n)) [
        | inl h ↦ rw h (
            length-set (replicate (pos_part options.max_response_tokens) floats.zero_f) (n - 1)
              reward
            ∙ length-replicate (pos_part options.max_response_tokens) floats.zero_f)
        | inr h ↦ rw h (length-replicate (pos_part options.max_response_tokens) floats.zero_f)
      ]

  build_rows-HasShape :
      (prompts ground_truths : List Bytes) (cache : PromptCache) (seqs : List RolloutSequence)
      (rows : List (RolloutRow Float))
      → build_rows floats tokenizer options reward_options prompts ground_truths cache seqs
        ≡ ok rows
      → (length rows ≡ length seqs) × All HasShape rows
  unfolding build_rows
  build_rows-HasShape prompts ground_truths cache [] rows h =
      subst (λ rows. (length rows ≡ 0) × All HasShape rows) (ok-injective h) (refl, tt)
  build_rows-HasShape prompts ground_truths cache (seq ∷ seqs) rows h =
      let encoded =
        cached_encode tokenizer (prompt_encode options) prompts cache seq.prompt_index in
      let checked = >>-eq-ok (throw_if (leb (length prompts) seq.prompt_index) out_of_range) _ h in
      let later =
        >>=-eq-ok
          (build_rows floats tokenizer options reward_options prompts ground_truths encoded.0 seqs)
          _ checked.1 in
      let rest = build_rows-HasShape prompts ground_truths encoded.0 seqs later.0 later.1 in
      subst (λ rows. (length rows ≡ suc (length seqs)) × All HasShape rows) (ok-injective later.2)
        (ap suc rest.0, (make_row-HasShape ground_truths encoded.1 seq, rest.1))

  -- A batch that is built has one row for each sequence, and each row has the width of its tensor.
  pub build_gsm8k_rollout_batch-HasShape :
      (response : RolloutResponse) (prompts ground_truths : List Bytes)
      (rows : List (RolloutRow Float))
      → build_gsm8k_rollout_batch floats tokenizer options reward_options response prompts
          ground_truths
        ≡ ok rows
      → (length rows ≡ length response.sequences) × All HasShape rows
  unfolding build_gsm8k_rollout_batch
  build_gsm8k_rollout_batch-HasShape response prompts ground_truths rows h =
      let sizes =
        >>-eq-ok (throw_if (not (length prompts == length ground_truths)) invalid_argument) _ h in
      let limits =
        >>-eq-ok
          (throw_if
            (leb_ℤ options.max_prompt_tokens (pos 0) || leb_ℤ options.max_response_tokens (pos 0))
            invalid_argument)
          _ sizes.1 in
      let some_seq =
        >>-eq-ok (throw_if (length response.sequences == 0) invalid_argument) _ limits.1 in
      build_rows-HasShape prompts ground_truths (replicate (length prompts) none) response.sequences
        rows some_seq.1
