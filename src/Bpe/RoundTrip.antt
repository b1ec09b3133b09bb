-- ===== src/Bpe/RoundTrip.antt =====
-- Decoding the ids of a text gives back the text.
use cverl.Base.{
  ℕ, zero, suc, ◌+◌, ◌≤◌, ◌<◌, ◌≡◌, ap, sym, subst, ◌∙◌, true, false, Option, none, some, List, [],
  ◌∷◌, ◌++◌, ℤ, ltb, if◌then◌else◌, length, length-drop, take, drop, Bytes, All-drop, All-take,
  arith,
}
use cverl.Tokenizer.Defs.{default_options}
use cverl.Bpe.Defs.{
  Impl, Special, find_special, encode_text_segment, emit, encode_loop, encode, decode,
}
use cverl.Bpe.Spell.{
  AreBytes, AreAscii, IsComplete, Spells, Spells-nil, Spells-append, added_token-Spells,
  decode_ids-Spells,
}
use cverl.Bpe.Segments.{
  Covers, encode_text_segment-Spells, find-split, IsFound, find_special-IsFound,
}

-- What is before and behind an ASCII part of a text, one that is not empty, is a text.
abbrev pub IsSplittable : (Bytes → Type 0) → Type 0
IsSplittable IsText =
    (front content back : Bytes)
    → AreAscii content
    → 0 < length content
    → IsText (front ++ (content ++ back))
    → IsText front × IsText back

module _ (impl : Impl) (IsText : Bytes → Type 0) (complete : IsComplete impl)
    (covers : Covers impl IsText) (splittable : IsSplittable IsText) where
  front-Spells :
      (i : ℕ) (s : Bytes)
      → AreBytes s
      → IsText (take i s)
      → Spells impl (if ltb 0 i then encode_text_segment impl (take i s) else []) (take i s)
  front-Spells zero s bytes text = Spells-nil impl
  front-Spells (suc i) s bytes text =
      let more : ltb 0 (suc i) ≡ true = ground arith in
      rw more (
        encode_text_segment-Spells impl IsText complete covers (take (suc i) s)
          (All-take (λ b. b < 256) (suc i) s bytes) text)

  emit-Spells :
      (s : Bytes) (special : Option Special) (later : Bytes → List ℤ)
      → 0 < length s
      → AreBytes s
      → IsText s
      → IsFound impl s special
      → ((rest : Bytes)
          → AreBytes rest
          → IsText rest
          → length rest < length s
          → Spells impl (later rest) rest)
      → Spells impl (emit impl special s later) s
  unfolding IsFound
  emit-Spells s none later long bytes text found go_on =
      encode_text_segment-Spells impl IsText complete covers s bytes text
  emit-Spells s (some best) later long bytes text found go_on =
      let content = found.0 in
      let i = best.best_start in
      let rest = drop (i + best.best_len) s in
      let behind : drop (i + length content) s ≡ rest = ap (λ n. drop (i + n) s) (sym found.1) in
      let parts : s ≡ take i s ++ (content ++ rest) =
        find-split content s i found.5 ∙ ap (λ x. take i s ++ (content ++ x)) behind in
      let texts = splittable (take i s) content rest found.2 found.4 (subst IsText parts text) in
      let shorter : length rest < length s =
        omega (arith, length-drop (i + best.best_len) s, found.1, found.4) in
      subst (Spells impl (emit impl (some best) s later)) (sym parts) (
        Spells-append impl (if ltb 0 i then encode_text_segment impl (take i s) else [])
          (best.best_id ∷ later rest) (take i s) (content ++ rest) (front-Spells i s bytes texts.0)
          (Spells-append impl (best.best_id ∷ []) (later rest) content rest
            (added_token-Spells impl content best.best_id found.2 found.3)
            (go_on rest (All-drop (λ b. b < 256) (i + best.best_len) s bytes) texts.1 shorter)))

  encode_loop-Spells :
      (fuel : ℕ) (s : Bytes)
      → length s ≤ fuel
      → AreBytes s
      → IsText s
      → Spells impl (encode_loop impl fuel s) s
  unfolding encode_loop
  encode_loop-Spells zero [] enough bytes text = Spells-nil impl
  encode_loop-Spells zero (b ∷ s) enough bytes text = absurd (omega arith)
  encode_loop-Spells (suc fuel) [] enough bytes text = Spells-nil impl
  encode_loop-Spells (suc fuel) (b ∷ s) enough bytes text =
      emit-Spells (b ∷ s) (find_special none impl.added_tokens_sorted (b ∷ s))
        (λ rest. encode_loop impl fuel rest) (omega arith) bytes text
        (find_special-IsFound impl (b ∷ s) impl.added_tokens_sorted none complete.has_added
          (unfold IsFound in tt))
        (λ rest rest_bytes rest_text shorter.
          encode_loop-Spells fuel rest (omega arith) rest_bytes rest_text)

  -- A text, a list of bytes, is encoded with the default options to ids that are decoded to it, with
  -- no token skipped. The vocabulary has each byte and what each merge makes, the added tokens are
  -- ASCII, and their ids decode to them; texts are a kind of lists such that what is before and behind
  -- an ASCII part of one is one, and that the pattern matches from each end of a match on, up to the
  -- end, where it matches nothing.
  pub decode-encode :
      (text : Bytes)
      → AreBytes text
      → IsText text
      → decode impl (encode impl text default_options) false ≡ text
  unfolding decode encode
  decode-encode text bytes is_text =
      decode_ids-Spells impl (encode_loop impl (length text) text) text
        (encode_loop-Spells (length text) text (omega arith) bytes is_text)
