-- ===== src/Bpe/Segments.antt =====
-- The loop over the matches of the pattern, and the loop over the added tokens.
use mathlib.Core.List.{flat_map}
use cverl.Base.{
  ℕ, zero, suc, ◌+◌, ◌-◌, ◌≤◌, ◌<◌, ◌≡◌, refl, ap, sym, subst, ◌∙◌, inl, inr, Bool, true, false,
  ◌&&◌, ◌||◌, Option, none, some, List, [], ◌∷◌, ◌++◌, ℤ, ltb, leb, ◌==◌, ==_iff, if◌then◌else◌,
  length, take, drop, drop_all, drop-drop, take-append-drop, Bytes, All, All-drop, All-take,
  Bool-cases, arith,
}
use cverl.Bpe.Defs.{
  Impl, Special, find_loop, find_all, is_prefix, one_further, find, better_special, find_special,
  bpe_encode_pretoken, encode_text_segment, token_of,
}
use cverl.Bpe.Spell.{
  AreBytes, AreAscii, IsComplete, Spells, Spells-nil, Spells-append, bpe_encode_pretoken-Spells,
}

module _ (impl : Impl) (IsText : Bytes → Type 0) where
  -- In a text, the pattern matches a part of it that is not empty, from each place that a match ended
  -- at on; at the end it matches nothing. What is behind a match is a text.
  pub record Covers : Type 0 where
    pub matches :
        (s : Bytes) (start : ℕ)
        → IsText (drop start s)
        → start < length s
        → (m_end : ℕ) × (impl.pre_tokenizer s start ≡ some (start, m_end))
          × (start < m_end)
          × (m_end ≤ length s)
          × IsText (drop m_end s)
    pub ends : (s : Bytes) → impl.pre_tokenizer s (length s) ≡ none

  find_loop_match :
      (s : Bytes) (fuel start m_end : ℕ)
      → impl.pre_tokenizer s start ≡ some (start, m_end)
      → start < m_end
      → start ≤ length s
      → find_loop impl.pre_tokenizer s (suc fuel) start
        ≡ take (m_end - start) (drop start s) ∷ find_loop impl.pre_tokenizer s fuel m_end
  unfolding find_loop
  find_loop_match s fuel start m_end e lt le =
      let inside : leb start (length s) ≡ true = ground arith in
      let longer : (m_end == start) ≡ false = ground arith in rw (inside, e, longer)

  find_loop_end :
      (covers : Covers) (s : Bytes) (fuel : ℕ)
      → find_loop impl.pre_tokenizer s (suc fuel) (length s) ≡ []
  unfolding find_loop
  find_loop_end covers s fuel =
      let inside : leb (length s) (length s) ≡ true = ground arith in rw (inside, covers.ends s)

  -- The chunks' ids spell the rest of the segment.
  find_loop-Spells :
      (complete : IsComplete impl) (covers : Covers) (s : Bytes)
      → AreBytes s
      → (fuel start : ℕ) → length s - start < fuel
      → start ≤ length s
      → IsText (drop start s)
      → Spells impl
          (flat_map (bpe_encode_pretoken impl) (find_loop impl.pre_tokenizer s fuel start))
          (drop start s)
  unfolding flat_map
  find_loop-Spells complete covers s bytes zero start enough le text = absurd (omega arith)
  find_loop-Spells complete covers s bytes (suc fuel) start enough le text =
      elim (Bool-cases (ltb start (length s))) [
        | inl lt ↦
            let inside : start < length s = ground arith in
            let m = covers.matches s start text inside in
            let chunk = take (m.0 - start) (drop start s) in
            let part : drop start s ≡ chunk ++ drop m.0 s =
              sym (take-append-drop (m.0 - start) (drop start s))
              ∙ ap (◌++◌ chunk) (
                  drop-drop (m.0 - start) start s ∙ ap (λ k. drop k s) (omega (arith, m.2, m.3))) in
            let first = bpe_encode_pretoken-Spells impl complete chunk (
              All-take (λ b. b < 256) (m.0 - start) (drop start s)
                (All-drop (λ b. b < 256) start s bytes)) in
            let later =
              find_loop-Spells complete covers s bytes fuel m.0 (omega (arith, m.2, m.3)) m.3 m.4 in
            subst
              (λ chunks. Spells impl (flat_map (bpe_encode_pretoken impl) chunks) (drop start s))
              (sym (find_loop_match s fuel start m.0 m.1 m.2 le))
              (subst
                (Spells impl (
                  flat_map (bpe_encode_pretoken impl)
                    (chunk ∷ find_loop impl.pre_tokenizer s fuel m.0)))
                (sym part)
                (Spells-append impl (bpe_encode_pretoken impl chunk)
                  (flat_map (bpe_encode_pretoken impl) (find_loop impl.pre_tokenizer s fuel m.0))
                  chunk (drop m.0 s) first later))
        | inr ge ↦
            let here : start ≡ length s = ground arith in
            let rest : drop start s ≡ [] = drop_all start s (ground arith) in
            let none_left : find_loop impl.pre_tokenizer s (suc fuel) start ≡ [] =
              ap (find_loop impl.pre_tokenizer s (suc fuel)) here ∙ find_loop_end covers s fuel in
            subst
              (λ chunks. Spells impl (flat_map (bpe_encode_pretoken impl) chunks) (drop start s))
              (sym none_left) (subst (Spells impl []) (sym rest) (Spells-nil impl))
      ]

  pub encode_text_segment-Spells :
      (complete : IsComplete impl) (covers : Covers) (s : Bytes)
      → AreBytes s
      → IsText s
      → Spells impl (encode_text_segment impl s) s
  unfolding encode_text_segment find_all
  encode_text_segment-Spells complete covers s bytes text =
      find_loop-Spells complete covers s bytes (length s + 1) 0 (omega arith) (omega arith) text

both_true : (x y : Bool) → (x && y) ≡ true → (x ≡ true) × (y ≡ true)
both_true true y h = (refl, h)
both_true false y h = cc

is_prefix-split :
    (content s : Bytes) → is_prefix content s ≡ true → s ≡ content ++ drop (length content) s
is_prefix-split [] s h = refl
is_prefix-split (c ∷ content) [] h = cc
is_prefix-split (c ∷ content) (b ∷ s) h =
    let both = both_true (c == b) (is_prefix content s) h in
    ap (λ x. x ∷ s) (sym ((==_iff c b).0 both.0)) ∙ ap (◌∷◌ c) (is_prefix-split content s both.1)

-- A text falls apart at the first place of another one.
pub find-split :
    (content s : Bytes) (i : ℕ)
    → find content s ≡ some i
    → s ≡ take i s ++ (content ++ drop (i + length content) s)
unfolding find
find-split content [] i h = at_end (is_prefix content []) refl h
  where
    at_end :
        (t : Bool)
        → is_prefix content [] ≡ t
        → (if t then some 0 else none) ≡ some i
        → [] ≡ take i [] ++ (content ++ drop (i + length content) [])
    at_end true p e =
        let zero_i : 0 ≡ i = cc in
        subst (λ k. [] ≡ take k [] ++ (content ++ drop (k + length content) [])) zero_i
          (is_prefix-split content [] p ∙ ap (λ k. content ++ drop k []) (omega arith))
    at_end false p e = cc
find-split content (b ∷ s) i h =
    at_head (is_prefix content (b ∷ s)) (find content s) refl h (λ j. find-split content s j)
  where
    at_head :
        (t : Bool) (o : Option ℕ)
        → is_prefix content (b ∷ s) ≡ t
        → (if t then some 0 else one_further o) ≡ some i
        → ((j : ℕ) → o ≡ some j → s ≡ take j s ++ (content ++ drop (j + length content) s))
        → b ∷ s ≡ take i (b ∷ s) ++ (content ++ drop (i + length content) (b ∷ s))
    at_head true o p e later =
        let zero_i : 0 ≡ i = cc in
        subst (λ k. b ∷ s ≡ take k (b ∷ s) ++ (content ++ drop (k + length content) (b ∷ s))) zero_i
          (is_prefix-split content (b ∷ s) p ∙ ap (λ k. content ++ drop k (b ∷ s)) (omega arith))
    at_head false none p e later = cc
    at_head false (some j) p e later =
        let further : suc (j + length content) ≡ suc j + length content = omega arith in
        let suc_i : j + 1 ≡ i = cc in
        let at_i : suc j ≡ i = omega arith in
        subst (λ k. b ∷ s ≡ take k (b ∷ s) ++ (content ++ drop (k + length content) (b ∷ s))) at_i
          (ap (◌∷◌ b) (later j refl)
            ∙ ap (λ k. (b ∷ take j s) ++ (content ++ drop k (b ∷ s))) further)

module _ (impl : Impl) where
  -- What the loop over the added tokens has found: the content that stands at the place.
  unfoldable pub IsFound : Bytes → Option Special → Type 0
  IsFound s none = Unit
  IsFound s (some best) =
      (content : Bytes) × (best.best_len ≡ length content)
      × AreAscii content
      × (token_of impl false best.best_id ≡ content)
      × (0 < length content)
      × (find content s ≡ some best.best_start)

  abbrev AreAdded : List (Bytes × ℤ) → Type 0
  AreAdded = All (λ token. AreAscii token.0 × (token_of impl false token.1 ≡ token.0))

  better_special-IsFound :
      (s : Bytes) (best : Option Special) (content : Bytes) (id : ℤ) (o : Option ℕ)
      → find content s ≡ o
      → AreAscii content
      → token_of impl false id ≡ content
      → 0 < length content
      → IsFound s best
      → IsFound s (better_special best content id o)
  unfolding IsFound
  better_special-IsFound s best content id none e ascii token long h = h
  better_special-IsFound s none content id (some found) e ascii token long h =
      (content, refl, ascii, token, long, e)
  better_special-IsFound s (some best) content id (some found) e ascii token long h = by_test (
      ltb found best.best_start
      || ((found == best.best_start) && ltb best.best_len (length content)))
    where
      by_test :
          (t : Bool)
          → IsFound s (
              if t
              then some (record { best_start = found; best_len = length content; best_id = id })
              else some best)
      by_test true = (content, refl, ascii, token, long, e)
      by_test false = h

  pub find_special-IsFound :
      (s : Bytes) (tokens : List (Bytes × ℤ)) (best : Option Special)
      → AreAdded tokens
      → IsFound s best
      → IsFound s (find_special best tokens s)
  unfolding find_special
  find_special-IsFound s [] best added h = h
  find_special-IsFound s (token ∷ tokens) best added h =
      by_length (length token.0 == 0) refl (find_special-IsFound s tokens best added.1 h) (λ long.
        find_special-IsFound s tokens (better_special best token.0 token.1 (find token.0 s)) added.1
          (better_special-IsFound s best token.0 token.1 (find token.0 s) refl added.0.0 added.0.1
            long h))
    where
      by_length :
          (t : Bool)
          → (length token.0 == 0) ≡ t
          → IsFound s (find_special best tokens s)
          → (0 < length token.0
              → IsFound s
                  (find_special (better_special best token.0 token.1 (find token.0 s)) tokens s))
          → IsFound s (
              if t
              then find_special best tokens s
              else find_special (better_special best token.0 token.1 (find token.0 s)) tokens s)
      by_length true e skip take = skip
      by_length false e skip take = take (ground arith)
