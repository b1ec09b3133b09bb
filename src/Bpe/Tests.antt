-- ===== src/Bpe/Tests.antt =====
-- A tokenizer with the 256 bytes, one merge and one added token, and the theorems applied to it.
use mathlib.Core.List.{flat_map}
use cverl.Base.{
  ℕ, ◌+◌, ◌<◌, ◌≡◌, ◌≢◌, refl, ap, ◌∙◌, Bool, true, false, ◌&&◌, Option, none, some, List, [], ◌∷◌,
  ◌++◌, map, ℤ, pos, minus_one, min, ltb, ◌==◌, ==_iff, if◌then◌else◌, length, range, replicate,
  Bytes, codes, All, holds_below, holds_below_at, arith,
}
use cverl.Tokenizer.Defs.{EncodeOptions, default_options}
use cverl.Bpe.Utf8.{utf8_append, utf8_decode}
use cverl.Bpe.Coding.{utf8_decode-utf8_append}
use cverl.Bpe.Table.{build_byte_to_unicode_table, byte_to_unicode}
use cverl.Bpe.Merge.{merge_loop, best_pair}
use cverl.Bpe.Greedy.{Merges, merge_loop-Merges}
use cverl.Bpe.Defs.{
  Impl, find_all, find_loop, find, find_special, part_ids, encode_parts, bpe_encode_pretoken,
  encode_text_segment, encode_loop, encode, token_of, decode,
}
use cverl.Bpe.Spell.{AreAscii, IsKnown, IsComplete}
use cverl.Bpe.Segments.{Covers}
use cverl.Tokenizer.Truncation.{limited}
use cverl.Bpe.Limit.{all_ids, encode-limited}
use cverl.Bpe.Latin.{decode_latin}
use cverl.Bpe.RoundTrip.{decode-encode}

abbrev equal : Bytes → Bytes → Bool
equal [] [] = true
equal (x ∷ xs) (y ∷ ys) = let rest = equal xs ys in (x == y) && rest
equal _ _ = false

abbrev position : ℕ → Bytes → List Bytes → Option ℤ
position i p [] = none
position i p (token ∷ tokens) =
    let rest = position (i + 1) p tokens in if equal token p then some (pos i) else rest

abbrev tokens : List Bytes
tokens =
    map (λ b. utf8_append (byte_to_unicode b)) (range 0 256) ++ (codes "ab" ∷ codes "<|end|>" ∷ [])

-- A pattern that takes two bytes, or the last one.
abbrev two_bytes : Bytes → ℕ → Option (ℕ × ℕ)
two_bytes s start = if ltb start (length s) then some (start, min (start + 2) (length s)) else none

abbrev impl : Impl
impl = record {
  vocab = λ p. position 0 p tokens;
  id_to_token = tokens;
  merge_ranks = λ p q. if equal p (codes "a") && equal q (codes "b") then some 0 else none;
  pre_tokenizer = two_bytes;
  added_tokens_sorted = (codes "<|end|>", pos 257) ∷ [];
  is_special = replicate 257 false ++ (true ∷ []);
  vocab_size = pos 258;
  bos_id = minus_one;
  eos_id = pos 257;
  unk_id = minus_one;
}

encoded :
    encode impl (codes "abc<|end|>xab") default_options
    ≡ pos 256 ∷ pos 99 ∷ pos 257 ∷ pos 120 ∷ pos 97 ∷ pos 98 ∷ []
unfolding encode encode_loop encode_text_segment bpe_encode_pretoken encode_parts part_ids find_all
    find_loop find find_special flat_map utf8_append byte_to_unicode build_byte_to_unicode_table
    merge_loop best_pair
encoded = refl

equal_lem : (xs ys : Bytes) → equal xs ys ≡ true → xs ≡ ys
equal_lem [] [] h = refl
equal_lem [] (y ∷ ys) h = cc
equal_lem (x ∷ xs) [] h = cc
equal_lem (x ∷ xs) (y ∷ ys) h = by_head (x == y) refl h (λ k. equal_lem xs ys k)
  where
    by_head :
        (t : Bool)
        → (x == y) ≡ t
        → (t && equal xs ys) ≡ true
        → (equal xs ys ≡ true → xs ≡ ys)
        → (x ∷ xs) ≡ (y ∷ ys)
    by_head true e k tails = ap (λ z. z ∷ xs) ((==_iff x y).0 e) ∙ ap (◌∷◌ y) (tails k)
    by_head false e k tails = cc

-- Whether a part has an id that decodes to it.
known : Option ℤ → Bytes → Bool
known none p = false
known (some id) p = equal (token_of impl false id) p

known-IsKnown : (o : Option ℤ) (p : Bytes) → impl.vocab p ≡ o → known o p ≡ true → IsKnown impl p
unfolding known
known-IsKnown none p e h = absurd (false_true h)
  where
    false_true : false ≡ true → ⊥
    false_true k = cc
known-IsKnown (some id) p e h = (id, e, equal_lem (token_of impl false id) p h)

bytes-IsKnown : (b : ℕ) → b < 256 → IsKnown impl (utf8_append (byte_to_unicode b))
unfolding holds_below known token_of utf8_append byte_to_unicode build_byte_to_unicode_table
bytes-IsKnown b h =
    let part = λ (x : ℕ). utf8_append (byte_to_unicode x) in
    known-IsKnown (impl.vocab (part b)) (part b) refl
      (holds_below_at 256 (λ x. known (impl.vocab (part x)) (part x)) b refl h)

are_below : ℕ → List ℕ → Bool
are_below n [] = true
are_below n (x ∷ xs) = let rest = are_below n xs in if ltb x n then rest else false

small : (n : ℕ) (xs : List ℕ) → are_below n xs ≡ true → All (λ x. x < n) xs
unfolding are_below
small n [] h = tt
small n (x ∷ xs) h = by_head (ltb x n) refl h (λ k. small n xs k)
  where
    by_head :
        (t : Bool)
        → ltb x n ≡ t
        → (if t then are_below n xs else false) ≡ true
        → (are_below n xs ≡ true → All (λ y. y < n) xs)
        → All (λ y. y < n) (x ∷ xs)
    by_head true e k rest = (ground arith, rest k)
    by_head false e k rest = absurd (false_true k)
      where
        false_true : false ≡ true → ⊥
        false_true j = cc

-- The only merge.
merges-IsKnown : (p q : Bytes) (r : ℕ) → impl.merge_ranks p q ≡ some r → IsKnown impl (p ++ q)
merges-IsKnown p q r h = by_test (equal p (codes "a")) (equal q (codes "b")) refl refl h
  where
    ab : IsKnown impl (codes "ab")
    ab =
        unfold token_of utf8_append byte_to_unicode build_byte_to_unicode_table in
        (pos 256, refl, refl)

    by_test :
        (t u : Bool)
        → equal p (codes "a") ≡ t
        → equal q (codes "b") ≡ u
        → (if t && u then some 0 else none) ≡ some r
        → IsKnown impl (p ++ q)
    by_test true true e f k =
        let at_p : p ≡ codes "a" = equal_lem p (codes "a") e in
        let at_q : q ≡ codes "b" = equal_lem q (codes "b") f in rw (at_p, at_q) ab
    by_test true false e f k = cc
    by_test false u e f k = cc

complete : IsComplete impl
unfolding are_below token_of utf8_append byte_to_unicode build_byte_to_unicode_table
complete = record {
  has_bytes = bytes-IsKnown;
  has_merges = merges-IsKnown;
  has_added = ((ascii, refl), tt);
}
  where
    ascii : AreAscii (codes "<|end|>")
    ascii = small 128 (codes "<|end|>") refl

-- Every list of bytes is a text to this pattern.
abbrev AnyText : Bytes → Type 0
AnyText s = Unit

covers : Covers impl AnyText
covers = record {
  matches = λ s start text inside.
      (min (start + 2) (length s), starts s start inside, omega (arith, inside), omega arith, tt);
  ends = λ s. stops s;
}
  where
    starts :
        (s : Bytes) (start : ℕ)
        → start < length s
        → two_bytes s start ≡ some (start, min (start + 2) (length s))
    starts s start inside = let t : ltb start (length s) ≡ true = ground arith in rw t refl

    stops : (s : Bytes) → two_bytes s (length s) ≡ none
    stops s = let t : ltb (length s) (length s) ≡ false = ground arith in rw t refl

decode-encode_example :
    decode impl (encode impl (codes "abc<|end|>xab") default_options) false ≡ codes "abc<|end|>xab"
unfolding are_below
decode-encode_example =
    decode-encode impl AnyText complete covers (λ front content back ascii long text. (tt, tt))
      (codes "abc<|end|>xab") (small 256 (codes "abc<|end|>xab") refl) tt

merge_loop-Merges_example :
    Merges impl.merge_ranks
      (codes "x" ∷ codes "a" ∷ codes "b" ∷ [])
      (merge_loop impl.merge_ranks 3 (codes "x" ∷ codes "a" ∷ codes "b" ∷ []))
merge_loop-Merges_example =
    merge_loop-Merges impl.merge_ranks 3 (codes "x" ∷ codes "a" ∷ codes "b" ∷ []) (omega arith)

abbrev limits : EncodeOptions
limits = record { add_bos = true; add_eos = true; max_tokens = pos 2 }

encode-limited_example :
    encode impl (codes "abc") limits ≡ limited (pos 2) (all_ids impl (codes "abc") limits)
encode-limited_example = encode-limited impl (codes "abc") limits (omega (arith, few))
  where
    few : length (all_ids impl (codes "abc") limits) ≡ 3
    few =
        unfold encode_loop encode_text_segment bpe_encode_pretoken encode_parts part_ids find_all
          find_loop find find_special flat_map utf8_append byte_to_unicode
          build_byte_to_unicode_table merge_loop best_pair in
        refl

utf8_decode-utf8_append_example :
    utf8_decode (flat_map utf8_append (65 ∷ 233 ∷ 8364 ∷ 128512 ∷ []))
    ≡ (65 ∷ 233 ∷ 8364 ∷ 128512 ∷ [], true)
unfolding are_below
utf8_decode-utf8_append_example =
    utf8_decode-utf8_append (65 ∷ 233 ∷ 8364 ∷ 128512 ∷ [])
      (small 0x200000 (65 ∷ 233 ∷ 8364 ∷ 128512 ∷ []) refl)

-- A tokenizer with one token, the character with the number 233.
abbrev latin_impl : Impl
latin_impl = record impl { id_to_token = (195 ∷ 169 ∷ []) ∷ []; vocab_size = pos 1 }

latin_token : token_of latin_impl false (pos 0) ≡ utf8_append 233
unfolding token_of utf8_append
latin_token = refl

decode_latin_example :
    (decode latin_impl (pos 0 ∷ []) false ≡ 233 ∷ [])
    × (length (token_of latin_impl false (pos 0)) ≡ 2)
decode_latin_example =
    decode_latin latin_impl (pos 0) 233 (omega arith) (omega arith) other latin_token
  where
    other : (let c : ℕ = 233 in c ≢ 173)
    other h = absurd (omega (arith, h))
