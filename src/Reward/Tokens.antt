-- ===== src/Reward/Tokens.antt =====
-- The flexible extractor's tokens.
use mathlib.Core.List.{flatten}
use cverl.Base.{
  ℕ, zero, suc, ◌≤◌, ◌≡◌, ◌≢◌, refl, ap, sym, subst, ◌∙◌, true, false, List, [], ◌∷◌, ◌++◌,
  if◌then◌else◌, length, All, Bytes, Bool-cases, inl, inr, arith,
}
use cverl.Reward.Defs.{is_number_char, number_run, after_run, token_loop, find_number_tokens}
use cverl.Reward.Strict.{length-after_run}

abbrev pub AllNumber : Bytes → Type 0
AllNumber = All (λ c. is_number_char c ≡ true)

-- The number characters of a text, in order.
abbrev pub number_chars : Bytes → Bytes
number_chars [] = []
number_chars (c ∷ cs) = let rest = number_chars cs in if is_number_char c then c ∷ rest else rest

number_run-AllNumber : (s : Bytes) → AllNumber (number_run s)
unfolding number_run
number_run-AllNumber [] = tt
number_run-AllNumber (c ∷ cs) = ground (arith, number_run-AllNumber cs)

number_chars-append :
    (run s : Bytes) → AllNumber run → number_chars (run ++ s) ≡ run ++ number_chars s
number_chars-append [] s h = refl
number_chars-append (c ∷ run) s h = rw h.0 (ap (◌∷◌ c) (number_chars-append run s h.1))

-- A text that is empty or goes on with another character than a number character.
abbrev Ends : Bytes → Type 0
Ends [] = Unit
Ends (c ∷ cs) = is_number_char c ≡ false

-- The tokens of a text are its maximal runs: before each there are only other characters, it is not
-- empty and holds number characters only, and no number character follows it.
pub data Tokenizes : Bytes → List Bytes → Type 0 where
  at_end : Tokenizes [] []
  other :
      (c : ℕ) (s : Bytes) (tokens : List Bytes)
      → is_number_char c ≡ false
      → Tokenizes s tokens
      → Tokenizes (c ∷ s) tokens
  token :
      (run s : Bytes) (tokens : List Bytes)
      → run ≢ []
      → AllNumber run
      → Ends s
      → Tokenizes s tokens
      → Tokenizes (run ++ s) (run ∷ tokens)

number_run-after_run : (s : Bytes) → number_run s ++ after_run s ≡ s
unfolding number_run after_run
number_run-after_run [] = refl
number_run-after_run (c ∷ cs) = ground (arith, number_run-after_run cs)

after_run-Ends : (s : Bytes) → Ends (after_run s)
unfolding after_run
after_run-Ends [] = tt
after_run-Ends (c ∷ cs) = elim (Bool-cases (is_number_char c)) [
  | inl number ↦ rw number (after_run-Ends cs)
  | inr no_number ↦ rw no_number no_number
]

token_loop-Tokenizes : (fuel : ℕ) (s : Bytes) → length s ≤ fuel → Tokenizes s (token_loop fuel s)
unfolding token_loop
token_loop-Tokenizes zero [] h = at_end
token_loop-Tokenizes zero (c ∷ cs) h = elim h [ ]
token_loop-Tokenizes (suc fuel) [] h = at_end
token_loop-Tokenizes (suc fuel) (c ∷ cs) h = elim (Bool-cases (is_number_char c)) [
  | inl number ↦
      let shorter = after_number c cs number in
      let whole =
        token (number_run (c ∷ cs)) (after_run (c ∷ cs)) (token_loop fuel (after_run (c ∷ cs)))
          (first_number c cs number) (number_run-AllNumber (c ∷ cs)) (after_run-Ends (c ∷ cs))
          (token_loop-Tokenizes fuel (after_run (c ∷ cs)) (omega arith)) in
      rw (number, token_loop)
        (subst (λ s. Tokenizes s (number_run (c ∷ cs) ∷ token_loop fuel (after_run (c ∷ cs))))
          (number_run-after_run (c ∷ cs)) whole)
  | inr no_number ↦
      rw (no_number, token_loop)
        (other c cs (token_loop fuel cs) no_number (token_loop-Tokenizes fuel cs (omega arith)))
]
  where
    after_number :
        (c : ℕ) (cs : Bytes) → is_number_char c ≡ true → length (after_run (c ∷ cs)) ≤ length cs
    after_number c cs number = unfold after_run in (rw number (length-after_run cs))

    first_number : (c : ℕ) (cs : Bytes) → is_number_char c ≡ true → number_run (c ∷ cs) ≢ []
    first_number c cs number = unfold number_run in (rw number (λ e. cc))

-- What is read off a text cut into its runs.
flatten-Tokenizes :
    {s : Bytes} {tokens : List Bytes} → Tokenizes s tokens → flatten tokens ≡ number_chars s
unfolding flatten
flatten-Tokenizes at_end = refl
flatten-Tokenizes (other c s tokens no_number rest) = rw no_number (flatten-Tokenizes rest)
flatten-Tokenizes (token run s tokens ne number ends rest) =
    ap (◌++◌ run) (flatten-Tokenizes rest) ∙ sym (number_chars-append run s number)

All-Tokenizes :
    {s : Bytes} {tokens : List Bytes}
    → Tokenizes s tokens
    → All (λ run. (run ≢ []) × AllNumber run) tokens
All-Tokenizes at_end = tt
All-Tokenizes (other c s tokens no_number rest) = All-Tokenizes rest
All-Tokenizes (token run s tokens ne number ends rest) = ((ne, number), All-Tokenizes rest)

-- The tokens are the maximal runs of number characters of the text, in order: non-empty, with no
-- number character before, between or behind them and none that follows a run. Together they
-- hold every number character of the text, in order, and nothing else.
pub find_number_tokens-lem :
    (text : Bytes)
    → ((flatten (find_number_tokens text) ≡ number_chars text)
        × All (λ token. (token ≢ []) × AllNumber token) (find_number_tokens text))
      × Tokenizes text (find_number_tokens text)
unfolding find_number_tokens
find_number_tokens-lem text =
    let runs = token_loop-Tokenizes (length text) text (omega arith) in
    ((flatten-Tokenizes runs, All-Tokenizes runs), runs)

run_all : (s : Bytes) → AllNumber s → (number_run s ≡ s) × (after_run s ≡ [])
unfolding number_run after_run
run_all [] h = (refl, refl)
run_all (c ∷ cs) h = let (run, after) = run_all cs h.1 in (rw h.0 (ap (◌∷◌ c) run), rw h.0 after)

-- A non-empty text of number characters is one token, also where a '-' stands inside it: "3-4"
-- is not read as "3" and "-4".
pub find_number_tokens-run :
    (text : Bytes) → text ≢ [] → AllNumber text → find_number_tokens text ≡ text ∷ []
unfolding find_number_tokens token_loop
find_number_tokens-run [] ne h = absurd (ne refl)
find_number_tokens-run (c ∷ cs) ne h =
    let (run, after) = run_all (c ∷ cs) h in rw (h.0, token_loop, run, after) (ends (length cs))
  where
    ends : (fuel : ℕ) → (c ∷ cs) ∷ token_loop fuel [] ≡ (c ∷ cs) ∷ []
    ends zero = refl
    ends (suc fuel) = refl
