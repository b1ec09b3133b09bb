-- ===== src/Tokenizer/Truncation.antt =====
-- The loops and guards of encode against a description that builds the whole sequence and cuts it,
-- and decode of what encode gives.
use mathlib.Core.List.{append_assoc, append-nil}
use cverl.Base.{
  ℕ, zero, suc, ◌+◌, ◌≤◌, ◌≡◌, refl, ap, sym, ◌∙◌, Bool, true, false, ◌||◌, List, [], ◌∷◌, ◌++◌,
  map, ℤ, pos, negsuc, ltb_ℤ, leb_ℤ, ltb, leb, if◌then◌else◌, length, length-append, take, take_all,
  take_left, take-append, length-take, Bytes, Bool-cases, inl, inr, arith,
}
use cverl.Tokenizer.Defs.{
  EncodeOptions, bos_id, eos_id, byte_offset, is_full, push_bytes, encode_with,
}

abbrev pub byte_id : ℕ → ℤ
byte_id c = pos (byte_offset + c)

-- The identifiers without a limit.
abbrev pub whole : EncodeOptions → Bytes → List ℤ
whole options text =
    (if options.add_bos then pos bos_id ∷ [] else [])
    ++ (map byte_id text ++ (if options.add_eos then pos eos_id ∷ [] else []))

-- A limit that is not positive is none.
abbrev pub limited {ℓ} : {A : Type ℓ} → ℤ → List A → List A
limited (pos zero) ids = ids
limited (pos (suc n)) ids = take (suc n) ids
limited (negsuc n) ids = ids

push_bytes_unlimited :
    (max_tokens : ℤ) (text : Bytes) (ids : List ℤ)
    → ltb_ℤ (pos 0) max_tokens ≡ false
    → push_bytes max_tokens ids text ≡ ids ++ map byte_id text
unfolding push_bytes
push_bytes_unlimited m [] ids h = sym (append-nil ids)
push_bytes_unlimited m (c ∷ text) ids h =
    rw (h, push_bytes_unlimited m text (ids ++ (byte_id c ∷ [])) h)
      (append_assoc ids (byte_id c ∷ []) (map byte_id text))

push_bytes_limited :
    (n : ℕ) (text : Bytes) (ids : List ℤ)
    → length ids ≤ suc n
    → push_bytes (pos (suc n)) ids text ≡ take (suc n) (ids ++ map byte_id text)
unfolding push_bytes
push_bytes_limited n [] ids h = sym (ap (take (suc n)) (append-nil ids) ∙ take_all (suc n) ids h)
push_bytes_limited n (c ∷ text) ids h = elim (Bool-cases (is_full (pos (suc n)) ids)) [
  | inl full ↦
      let e : length ids ≡ suc n = ground arith in
      rw full (
        sym (
          ap (λ k. take k (ids ++ map byte_id (c ∷ text))) (sym e)
          ∙ take_left ids (map byte_id (c ∷ text))))
  | inr room ↦
      let longer : length (ids ++ (byte_id c ∷ [])) ≤ suc n =
        rw (length-append ids (byte_id c ∷ [])) (ground arith) in
      rw room (
        push_bytes_limited n text (ids ++ (byte_id c ∷ [])) longer
        ∙ ap (take (suc n)) (append_assoc ids (byte_id c ∷ []) (map byte_id text)))
]

-- The last guard appends where there is room.
append_limited :
    (n : ℕ) (ids : List ℤ) (id : ℤ)
    → (if ltb (length (take (suc n) ids)) (suc n)
        then take (suc n) ids ++ (id ∷ [])
        else take (suc n) ids)
      ≡ take (suc n) (ids ++ (id ∷ []))
append_limited n ids id = elim (Bool-cases (leb (suc n) (length ids))) [
  | inl long ↦
      let full : ltb (length (take (suc n) ids)) (suc n) ≡ false =
        rw (length-take (suc n) ids) (ground arith) in
      rw (full, take-append (suc n) ids (id ∷ []) (ground arith))
  | inr short ↦
      let room : ltb (length ids) (suc n) ≡ true = ground arith in
      let cut : take (suc n) (ids ++ (id ∷ [])) ≡ ids ++ (id ∷ []) =
        take_all (suc n) (ids ++ (id ∷ [])) (rw (length-append ids (id ∷ [])) (ground arith)) in
      rw (take_all (suc n) ids (ground arith), room, cut)
]

abbrev begin : Bool → List ℤ
begin add_bos = if add_bos then pos bos_id ∷ [] else []

length-begin : (add_bos : Bool) → length (begin add_bos) ≤ 1
length-begin true = omega arith
length-begin false = omega arith

eos_room :
    (size n : ℕ)
    → (leb_ℤ (pos (suc n)) (pos 0) || ltb_ℤ (pos size) (pos (suc n))) ≡ ltb size (suc n)
eos_room size n = ground arith

encode_limited :
    (b e : Bool) (n : ℕ) (text : Bytes)
    → encode_with (record { add_bos = b; add_eos = e; max_tokens = pos (suc n) }) text
      ≡ take (suc n) (begin b ++ (map byte_id text ++ (if e then pos eos_id ∷ [] else [])))
unfolding encode_with
encode_limited b true n text =
    ap
      (λ ids.
        if leb_ℤ (pos (suc n)) (pos 0) || ltb_ℤ (pos (length ids)) (pos (suc n))
        then ids ++ (pos eos_id ∷ [])
        else ids)
      (push_bytes_limited n text (begin b) (omega (arith, length-begin b)))
    ∙ ap
        (λ room.
          if room
          then take (suc n) (begin b ++ map byte_id text) ++ (pos eos_id ∷ [])
          else take (suc n) (begin b ++ map byte_id text))
        (eos_room (length (take (suc n) (begin b ++ map byte_id text))) n)
    ∙ append_limited n (begin b ++ map byte_id text) (pos eos_id)
    ∙ ap (take (suc n)) (append_assoc (begin b) (map byte_id text) (pos eos_id ∷ []))
encode_limited b false n text =
    push_bytes_limited n text (begin b) (omega (arith, length-begin b))
    ∙ ap (λ t. take (suc n) (begin b ++ t)) (sym (append-nil (map byte_id text)))

encode_unlimited :
    (b e : Bool) (m : ℤ) (text : Bytes)
    → ltb_ℤ (pos 0) m ≡ false
    → encode_with (record { add_bos = b; add_eos = e; max_tokens = m }) text
      ≡ begin b ++ (map byte_id text ++ (if e then pos eos_id ∷ [] else []))
unfolding encode_with
encode_unlimited b true m text h =
    let unbounded : leb_ℤ m (pos 0) ≡ true = ground arith in
    rw (unbounded, push_bytes_unlimited m text (begin b) h)
      (append_assoc (begin b) (map byte_id text) (pos eos_id ∷ []))
encode_unlimited b false m text h =
    push_bytes_unlimited m text (begin b) h
    ∙ ap (◌++◌ (begin b)) (sym (append-nil (map byte_id text)))

-- The encoding is the whole sequence, an optional bos, the identifiers of the bytes and an optional
-- eos, cut to max_tokens identifiers if that is positive.
pub encode_with-limited :
    (options : EncodeOptions) (text : Bytes)
    → encode_with options text ≡ limited options.max_tokens (whole options text)
encode_with-limited options text = by_limit options.add_bos options.add_eos options.max_tokens
  where
    by_limit :
        (b e : Bool) (m : ℤ)
        → encode_with (record { add_bos = b; add_eos = e; max_tokens = m }) text
          ≡ limited m (whole (record { add_bos = b; add_eos = e; max_tokens = m }) text)
    by_limit b e (pos zero) = encode_unlimited b e (pos 0) text refl
    by_limit b e (pos (suc n)) = encode_limited b e n text
    by_limit b e (negsuc n) = encode_unlimited b e (negsuc n) text (ground arith)
