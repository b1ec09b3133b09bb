-- ===== src/Reward/Strict.antt =====
-- The strict extractor against a reading of the text position by position: the loop, which goes on
-- behind each match, misses no match and keeps the last.
use cverl.Base.{
  ℕ, zero, suc, ◌+◌, ◌≤◌, ◌<◌, ◌≡◌, refl, ap, sym, subst, ◌∙◌, inl, inr, true, List, [], ◌∷◌, ◌++◌,
  Option, none, some, Option-cases, Bool-cases, if◌then◌else◌, length, Bytes, arith,
}
use cverl.Reward.Defs.{
  is_number_char, number_run, after_run, strip_prefix, marker, after_marker, is_empty, strict_loop,
  extract_strict,
}

-- The match that stands at the front of a text, if any: "#### " and a run that is not empty.
abbrev pub match_of : Bytes → List Bytes
match_of start = if is_empty (number_run start) then [] else number_run start ∷ []

abbrev pub match_at : Option Bytes → List Bytes
match_at none = []
match_at (some start) = match_of start

-- The matches at every position of the text, in order.
unfoldable pub matches : Bytes → List Bytes
matches [] = []
matches (c ∷ cs) = match_at (strip_prefix marker (c ∷ cs)) ++ matches cs

-- The last element, or a default.
abbrev pub last_or : Option Bytes → List Bytes → Option Bytes
last_or last [] = last
last_or last (x ∷ xs) = last_or (some x) xs

strip_prefix-append : (p s rest : Bytes) → strip_prefix p s ≡ some rest → s ≡ p ++ rest
unfolding strip_prefix
strip_prefix-append [] s rest h = ground arith
strip_prefix-append (p ∷ ps) [] rest h = cc
strip_prefix-append (p ∷ ps) (c ∷ cs) rest h = ground (arith, strip_prefix-append ps cs rest)

-- A number character begins no marker.
number_no_marker :
    (c : ℕ) (cs : Bytes) → is_number_char c ≡ true → strip_prefix marker (c ∷ cs) ≡ none
unfolding strip_prefix is_number_char
number_no_marker c cs h = ground arith

pub matches-after_run : (s : Bytes) → matches s ≡ matches (after_run s)
unfolding matches after_run
matches-after_run [] = refl
matches-after_run (c ∷ cs) = elim (Bool-cases (is_number_char c)) [
  | inl number ↦ rw (number, number_no_marker c cs number) (matches-after_run cs)
  | inr other ↦ rw other
]

pub matches-marker : (rest : Bytes) → matches (marker ++ rest) ≡ match_of rest ++ matches rest
unfolding matches strip_prefix
matches-marker rest = refl

pub length-after_run : (s : Bytes) → length (after_run s) ≤ length s
unfolding after_run
length-after_run [] = omega arith
length-after_run (c ∷ cs) = ground (arith, length-after_run cs)

after_marker-none : (s : Bytes) → after_marker s ≡ none → matches s ≡ []
unfolding after_marker matches
after_marker-none [] h = refl
after_marker-none (c ∷ cs) h = ground (arith, after_marker-none cs)

matches-miss :
    (c : ℕ) (cs : Bytes) → strip_prefix marker (c ∷ cs) ≡ none → matches (c ∷ cs) ≡ matches cs
unfolding matches
matches-miss c cs miss = rw miss

after_marker-miss :
    (c : ℕ) (cs : Bytes)
    → strip_prefix marker (c ∷ cs) ≡ none
    → after_marker (c ∷ cs) ≡ after_marker cs
unfolding after_marker
after_marker-miss c cs miss = rw (miss, after_marker)

after_marker-hit :
    (c : ℕ) (cs rest : Bytes)
    → strip_prefix marker (c ∷ cs) ≡ some rest
    → after_marker (c ∷ cs) ≡ some rest
unfolding after_marker
after_marker-hit c cs rest hit = rw (hit, after_marker)

some-eq_some : {a b : Bytes} → some a ≡ some b → a ≡ b
some-eq_some h = cc

abbrev Found : Bytes → Bytes → Type 0
Found s start = (matches s ≡ match_of start ++ matches start) × (length start < length s)

after_marker-some : (s start : Bytes) → after_marker s ≡ some start → Found s start
after_marker-some [] start h = unfold after_marker in cc
after_marker-some (c ∷ cs) start h = elim (Option-cases (strip_prefix marker (c ∷ cs))) [
  | inl miss ↦
      let (found, shorter) = after_marker-some cs start (sym (after_marker-miss c cs miss) ∙ h) in
      (matches-miss c cs miss ∙ found, omega arith)
  | inr (rest, hit) ↦
      let same : some rest ≡ some start = sym (after_marker-hit c cs rest hit) ∙ h in
      subst (Found (c ∷ cs)) (some-eq_some same) (
        subst (λ s. Found s rest) (sym (strip_prefix-append marker (c ∷ cs) rest hit))
          (matches-marker rest, omega arith))
]

pub last_or-append :
    (last : Option Bytes) (xs ys : List Bytes)
    → last_or last (xs ++ ys) ≡ last_or (last_or last xs) ys
last_or-append last [] ys = refl
last_or-append last (x ∷ xs) ys = last_or-append (some x) xs ys

last_or-match_of :
    (last : Option Bytes) (start : Bytes)
    → (if is_empty (number_run start) then last else some (number_run start))
      ≡ last_or last (match_of start)
last_or-match_of last start = ground arith

strict_loop-matches :
    (fuel : ℕ) (s : Bytes) (last : Option Bytes)
    → length s < fuel
    → strict_loop fuel s last ≡ last_or last (matches s)
strict_loop-matches zero s last h = absurd (omega arith)
strict_loop-matches (suc fuel) s last h = elim (Option-cases (after_marker s)) [
  | inl none_left ↦
      rw (after_marker-none s none_left) (unfold strict_loop in rw (none_left, strict_loop))
  | inr (start, found) ↦
      let (split, shorter) = after_marker-some s start found in
      let last' = if is_empty (number_run start) then last else some (number_run start) in
      step fuel s start last found
      ∙ strict_loop-matches fuel (after_run start) last' (omega (arith, length-after_run start))
      ∙ ap (last_or last') (sym (matches-after_run start))
      ∙ ap (λ (o : Option Bytes). last_or o (matches start)) (last_or-match_of last start)
      ∙ sym (last_or-append last (match_of start) (matches start))
      ∙ ap (last_or last) (sym split)
]
  where
    step :
        (fuel : ℕ) (s start : Bytes) (last : Option Bytes)
        → after_marker s ≡ some start
        → strict_loop (suc fuel) s last
          ≡ strict_loop fuel
              (after_run start)
              (if is_empty (number_run start) then last else some (number_run start))
    step fuel s start last found = unfold strict_loop in rw (found, strict_loop)

-- On every text the strict extractor returns the last of all its matches, at whatever positions,
-- and nothing exactly when there is no match.
pub extract_strict-matches : (text : Bytes) → extract_strict text ≡ last_or none (matches text)
unfolding extract_strict
extract_strict-matches text = strict_loop-matches (length text + 1) text none (omega arith)
