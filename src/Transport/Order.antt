-- ===== src/Transport/Order.antt =====
-- The order of the sequences of a loopback response.
use cverl.Base.{
  ℕ, zero, suc, ◌+◌, ◌*◌, ◌^◌, ◌<◌, ◌≡◌, refl, ap, ◌∙◌, min, ◌||◌, List, [], ◌∷◌, ◌++◌, map, some,
  if◌then◌else◌, length, get_elem?, range, length-append, length-map, length-range, get_elem?-map,
  get_elem?-range, Bytes, Bool-cases, inl, inr, arith,
}
use cverl.Transport.Messages.{RolloutRequest, RolloutSequence}
use cverl.Transport.Loopback.{
  LoopbackOptions, synthesize, loopback_sequence, loopback_prompts, loopback_generate,
}

get_elem?-append {ℓ} :
    {A : Type ℓ} (xs ys : List A) (i : ℕ) {a : A}
    → get_elem? xs i ≡ some a
    → get_elem? (xs ++ ys) i ≡ some a
get_elem?-append [] ys i h = cc
get_elem?-append (x ∷ xs) ys zero h = h
get_elem?-append (x ∷ xs) ys (suc i) h = get_elem?-append xs ys i h

get_elem?-append_right {ℓ} :
    {A : Type ℓ} (xs ys : List A) (i : ℕ) → get_elem? (xs ++ ys) (length xs + i) ≡ get_elem? ys i
get_elem?-append_right [] ys i = ap (get_elem? ys) (omega arith)
get_elem?-append_right (x ∷ xs) ys i =
    let e : suc (length xs) + i ≡ suc (length xs + i) = omega arith in
    rw e (get_elem?-append_right xs ys i)

suc-mul : (i n s : ℕ) → suc i * n + s ≡ n + (i * n + s)
suc-mul i n s = omega arith

module _ (options : LoopbackOptions) (request : RolloutRequest) where
  abbrev samples : ℕ → Bytes → List RolloutSequence
  samples p prompt = map (loopback_sequence options request p prompt) (range 0 request.n)

  length-samples : (p : ℕ) (prompt : Bytes) → length (samples p prompt) ≡ request.n
  length-samples p prompt =
      length-map (loopback_sequence options request p prompt) (range 0 request.n)
      ∙ length-range 0 request.n

  get_elem?-loopback_prompts :
      (prompts : List Bytes) (p i s : ℕ) (prompt : Bytes)
      → get_elem? prompts i ≡ some prompt
      → s < request.n
      → get_elem? (loopback_prompts options request p prompts) (i * request.n + s)
        ≡ some (loopback_sequence options request (p + i) prompt s)
  unfolding loopback_prompts
  get_elem?-loopback_prompts [] p i s prompt h below = cc
  get_elem?-loopback_prompts (x ∷ prompts) p zero s prompt h below =
      let start : 0 * request.n + s ≡ s = omega arith in
      let here : p + 0 ≡ p = omega arith in
      let found =
        get_elem?-map (loopback_sequence options request p x) (range 0 request.n) s
          (get_elem?-range 0 request.n s below) in
      rw (start, here)
        (get_elem?-append (samples p x) (loopback_prompts options request (p + 1) prompts) s found
          ∙ ap (λ k. some (loopback_sequence options request p x k)) (omega arith)
          ∙ ap (λ y. some (loopback_sequence options request p y s)) (same_prompt h))
    where
      same_prompt : some x ≡ some prompt → x ≡ prompt
      same_prompt h = cc
  get_elem?-loopback_prompts (x ∷ prompts) p (suc i) s prompt h below =
      let start : suc i * request.n + s ≡ length (samples p x) + (i * request.n + s) =
        rw (length-samples p x) (suc-mul i request.n s) in
      let here : p + suc i ≡ p + 1 + i = omega arith in
      rw (start, here)
        (get_elem?-append_right (samples p x) (loopback_prompts options request (p + 1) prompts)
            (i * request.n + s)
          ∙ get_elem?-loopback_prompts prompts (p + 1) i s prompt h below)

  length-loopback_prompts :
      (prompts : List Bytes) (p : ℕ)
      → length (loopback_prompts options request p prompts) ≡ length prompts * request.n
  unfolding loopback_prompts
  length-loopback_prompts [] p = omega arith
  length-loopback_prompts (x ∷ prompts) p = omega (
    arith,
    length-append (samples p x) (loopback_prompts options request (p + 1) prompts),
    length-samples p x,
    length-loopback_prompts prompts (p + 1),
  )

  -- For a prompt index that fits 32 bits, sample s of prompt i stands at i * n + s of the response,
  -- marked with both indices, its text the prompt with the suffix; the response has n sequences for
  -- each prompt and the identifier of the request.
  pub loopback_generate_order :
      (i s : ℕ) (prompt : Bytes)
      → get_elem? request.prompts i ≡ some prompt
      → s < request.n
      → i < 2 ^ 32
      → (let response = loopback_generate options request in
          (seq : RolloutSequence) × (get_elem? response.sequences (i * request.n + s) ≡ some seq)
          × (seq.prompt_index ≡ i)
          × (seq.sample_index ≡ s)
          × (seq.text ≡ prompt ++ options.completion_suffix)
          × (length response.sequences ≡ length request.prompts * request.n)
          × (response.request_id ≡ request.request_id))
  unfolding loopback_generate loopback_sequence
  loopback_generate_order i s prompt h below fits = (
    loopback_sequence options request (0 + i) prompt s,
    get_elem?-loopback_prompts request.prompts 0 i s prompt h below,
    omega arith,
    refl,
    refl,
    length-loopback_prompts request.prompts 0,
    refl,
  )

length-synthesize : (size state : ℕ) → length (synthesize size state) ≡ size
unfolding synthesize
length-synthesize zero state = refl
length-synthesize (suc n) state = ap suc (length-synthesize n _)

-- A loopback sequence has at most max_tokens ids, and none unless ids are asked for.
length-loopback_sequence :
    (options : LoopbackOptions) (request : RolloutRequest) (p : ℕ) (prompt : Bytes) (s : ℕ)
    → length (loopback_sequence options request p prompt s).token_ids ≡ (
        if options.synthesize_token_ids || request.return_token_ids
        then min request.max_tokens (length (prompt ++ options.completion_suffix) + 1)
        else 0)
unfolding loopback_sequence
length-loopback_sequence options request p prompt s =
    elim (Bool-cases (options.synthesize_token_ids || request.return_token_ids)) [
      | inl asked ↦ rw asked (
          length-synthesize
            (min request.max_tokens (length (prompt ++ options.completion_suffix) + 1)) _)
      | inr not_asked ↦ rw not_asked
    ]
