-- ===== src/Bpe/Spell.antt =====
-- Ids that spell a text: what they are decoded to, in a form that can be put together.
use mathlib.Core.List.{flat_map, append_assoc, append-nil}
use cverl.Base.{
  ℕ, zero, suc, ◌<◌, ◌≡◌, refl, ap, sym, ◌∙◌, false, some, List, [], ◌∷◌, ◌++◌, map, ℤ, length,
  Bytes, All, All-append, All-map, flat_map-append, flat_map-map, arith,
}
use cverl.Bpe.Utf8.{utf8_append, utf8_decode}
use cverl.Bpe.Coding.{AllCodes, utf8_decode-utf8_append}
use cverl.Bpe.Table.{byte_to_unicode, uc_to_byte}
use cverl.Bpe.Inverse.{
  uc_to_byte-byte_to_unicode, byte_to_unicode_small, utf8_append-ascii, decode_code-ascii,
}
use cverl.Bpe.Merge.{merge_at}
use cverl.Bpe.Greedy.{Merges, merged, merge_step, IsBest, merge_loop-Merges}
use cverl.Bpe.Defs.{
  Impl, decode_code, id_or_unk, part_ids, encode_parts, bpe_encode_pretoken, token_of, decode_ids,
}

-- The bytes of a text, and those that are ASCII.
abbrev pub AreBytes : Bytes → Type 0
AreBytes = All (λ b. b < 256)

abbrev pub AreAscii : Bytes → Type 0
AreAscii = All (λ b. b < 128)

abbrev decoded : ℕ → Bytes
decoded cp = decode_code (uc_to_byte cp) cp

ascii_bytes :
    (f : ℕ → Bytes) (content : Bytes)
    → ((c : ℕ) → c < 128 → f c ≡ c ∷ [])
    → AreAscii content
    → flat_map f content ≡ content
unfolding flat_map
ascii_bytes f [] e h = refl
ascii_bytes f (c ∷ content) e h =
    ap (λ x. x ++ flat_map f content) (e c h.0) ∙ ap (◌∷◌ c) (ascii_bytes f content e h.1)

ascii_codes : (content : Bytes) → AreAscii content → AllCodes content
ascii_codes [] h = tt
ascii_codes (c ∷ content) h = (omega (arith, h.0), ascii_codes content h.1)

module _ (impl : Impl) where
  -- The vocabulary has a part, with an id that decodes to it.
  abbrev pub IsKnown : Bytes → Type 0
  IsKnown p = (id : ℤ) × (impl.vocab p ≡ some id) × (token_of impl false id ≡ p)

  -- The vocabulary has every byte and what each merge makes, and an added token is ASCII.
  pub record IsComplete : Type 0 where
    pub has_bytes : (b : ℕ) → b < 256 → IsKnown (utf8_append (byte_to_unicode b))
    pub has_merges : (p q : Bytes) (r : ℕ) → impl.merge_ranks p q ≡ some r → IsKnown (p ++ q)
    pub has_added :
        All
          (λ token. AreAscii token.0 × (token_of impl false token.1 ≡ token.0))
          impl.added_tokens_sorted

  -- The tokens are the code points of a text, coded.
  pub Spells : List ℤ → Bytes → Type 0
  Spells ids text =
      (cps : List ℕ) × AllCodes cps
      × (flat_map (token_of impl false) ids ≡ flat_map utf8_append cps)
      × (flat_map decoded cps ≡ text)

  pub Spells-nil : Spells [] []
  unfolding Spells flat_map
  Spells-nil = ([], tt, refl, refl)

  pub Spells-append :
      (ids ids' : List ℤ) (text text' : Bytes)
      → Spells ids text
      → Spells ids' text'
      → Spells (ids ++ ids') (text ++ text')
  unfolding Spells
  Spells-append ids ids' text text' (cps, codes, e, d) (cps', codes', e', d') = (
    cps ++ cps',
    All-append (λ cp. cp < 0x200000) cps cps' codes codes',
    flat_map-append (token_of impl false) ids ids'
        ∙ ap (λ x. x ++ flat_map (token_of impl false) ids') e
        ∙ ap (◌++◌ (flat_map utf8_append cps)) e'
        ∙ sym (flat_map-append utf8_append cps cps'),
    flat_map-append decoded cps cps' ∙ ap (λ x. x ++ flat_map decoded cps') d ∙ ap (◌++◌ text) d',
  )

  pub decode_ids-Spells :
      (ids : List ℤ) (text : Bytes) → Spells ids text → decode_ids impl ids false ≡ text
  unfolding Spells decode_ids
  decode_ids-Spells ids text (cps, codes, e, d) =
      ap (λ s. flat_map decoded (utf8_decode s).0) e
      ∙ ap (λ r. flat_map decoded r.0) (utf8_decode-utf8_append cps codes)
      ∙ d

  -- The final parts.
  join : List Bytes → Bytes
  join = flat_map (λ p. p)

  part_ids-IsKnown : (p : Bytes) → IsKnown p → flat_map (token_of impl false) (part_ids impl p) ≡ p
  unfolding flat_map
  part_ids-IsKnown p (id, found, token) =
      let ids : part_ids impl p ≡ id ∷ [] = unfold part_ids in ap (id_or_unk impl.unk_id) found in
      ap (flat_map (token_of impl false)) ids ∙ rw token (append-nil p)

  parts_ids :
      (parts : List Bytes)
      → All IsKnown parts
      → flat_map (token_of impl false) (flat_map (part_ids impl) parts) ≡ join parts
  unfolding join flat_map
  parts_ids [] h = refl
  parts_ids (p ∷ parts) h =
      flat_map-append (token_of impl false) (part_ids impl p) (flat_map (part_ids impl) parts)
      ∙ ap (λ x. x ++ flat_map (token_of impl false) (flat_map (part_ids impl) parts))
          (part_ids-IsKnown p h.0)
      ∙ ap (◌++◌ p) (parts_ids parts h.1)

  join-merge_at :
      (r j : ℕ) (parts : List Bytes)
      → IsBest impl.merge_ranks r j parts
      → join (merge_at j parts) ≡ join parts
  unfolding join flat_map
  join-merge_at r zero (p ∷ q ∷ parts) h = append_assoc p q (join parts)
  join-merge_at r (suc j) (p ∷ q ∷ parts) h = ap (◌++◌ p) (join-merge_at r j (q ∷ parts) h.1)
  join-merge_at r zero [] h = absurd h
  join-merge_at r zero (p ∷ []) h = absurd h
  join-merge_at r (suc j) [] h = absurd h
  join-merge_at r (suc j) (p ∷ []) h = absurd h

  IsKnown-merge_at :
      (complete : IsComplete) (r j : ℕ) (parts : List Bytes)
      → IsBest impl.merge_ranks r j parts
      → All IsKnown parts
      → All IsKnown (merge_at j parts)
  IsKnown-merge_at complete r zero (p ∷ q ∷ parts) h k = (complete.has_merges p q r h.0, k.1.1)
  IsKnown-merge_at complete r (suc j) (p ∷ q ∷ parts) h k =
      (k.0, IsKnown-merge_at complete r j (q ∷ parts) h.1 k.1)
  IsKnown-merge_at complete r zero [] h k = absurd h
  IsKnown-merge_at complete r zero (p ∷ []) h k = absurd h
  IsKnown-merge_at complete r (suc j) [] h k = absurd h
  IsKnown-merge_at complete r (suc j) (p ∷ []) h k = absurd h

  -- Merging keeps the text and stays in the vocabulary.
  IsKnown-Merges :
      (complete : IsComplete) {parts out : List Bytes}
      → Merges impl.merge_ranks parts out
      → All IsKnown parts
      → All IsKnown out × (join out ≡ join parts)
  IsKnown-Merges complete (merged least) k = (k, refl)
  IsKnown-Merges complete (merge_step r j {parts} is_best lower later) k =
      let rest = IsKnown-Merges complete later (IsKnown-merge_at complete r j parts is_best k) in
      (rest.0, rest.1 ∙ join-merge_at r j parts is_best)

  encode_parts-join :
      (complete : IsComplete) (parts : List Bytes)
      → All IsKnown parts
      → flat_map (token_of impl false) (encode_parts impl parts) ≡ join parts
  unfolding encode_parts
  encode_parts-join complete [] k = unfold join flat_map in refl
  encode_parts-join complete (p ∷ []) k =
      unfold join flat_map in part_ids-IsKnown p k.0 ∙ sym (append-nil p)
  encode_parts-join complete (p ∷ q ∷ parts) k =
      let all =
        IsKnown-Merges complete
          (merge_loop-Merges impl.merge_ranks (length (p ∷ q ∷ parts)) (p ∷ q ∷ parts)
            (omega arith))
          k in
      parts_ids _ all.0 ∙ all.1

  byte_parts :
      (complete : IsComplete) (chunk : Bytes)
      → AreBytes chunk
      → All (λ b. IsKnown (utf8_append (byte_to_unicode b))) chunk
  byte_parts complete [] h = tt
  byte_parts complete (b ∷ chunk) h = (complete.has_bytes b h.0, byte_parts complete chunk h.1)

  byte_codes :
      (chunk : Bytes)
      → AreBytes chunk
      → AllCodes (map byte_to_unicode chunk)
        × (flat_map decoded (map byte_to_unicode chunk) ≡ chunk)
  unfolding flat_map
  byte_codes [] h = (tt, refl)
  byte_codes (b ∷ chunk) h =
      let rest = byte_codes chunk h.1 in
      (
        (byte_to_unicode_small b h.0, rest.0),
        ap (λ o. decode_code o (byte_to_unicode b) ++ flat_map decoded (map byte_to_unicode chunk))
              (uc_to_byte-byte_to_unicode b h.0)
            ∙ ap (◌∷◌ b) rest.1,
      )

  pub bpe_encode_pretoken-Spells :
      (complete : IsComplete) (chunk : Bytes)
      → AreBytes chunk
      → Spells (bpe_encode_pretoken impl chunk) chunk
  unfolding Spells bpe_encode_pretoken join
  bpe_encode_pretoken-Spells complete chunk h =
      let part = λ (b : ℕ). utf8_append (byte_to_unicode b) in
      let known : All IsKnown (map part chunk) =
        All-map IsKnown part chunk (byte_parts complete chunk h) in
      let back = byte_codes chunk h in
      (
        map byte_to_unicode chunk,
        back.0,
        encode_parts-join complete (map part chunk) known
            ∙ flat_map-map (λ p. p) part chunk
            ∙ sym (flat_map-map utf8_append byte_to_unicode chunk),
        back.1,
      )

  pub added_token-Spells :
      (content : Bytes) (id : ℤ)
      → AreAscii content
      → token_of impl false id ≡ content
      → Spells (id ∷ []) content
  unfolding Spells flat_map
  added_token-Spells content id ascii token = (
    content,
    ascii_codes content ascii,
    append-nil (token_of impl false id)
        ∙ token
        ∙ sym (ascii_bytes utf8_append content utf8_append-ascii ascii),
    ascii_bytes decoded content decode_code-ascii ascii,
  )
