-- ===== src/Bpe/Limit.antt =====
-- The optional special tokens around the ids of a text, and the limit on their number.
use mathlib.Core.List.{append-nil}
use cverl.Base.{
  ◌<◌, ◌≤◌, ◌^◌, pos_part, cast_int32, cast_int32-pos, length-append, zero, suc, ◌≡◌, refl, ap, sym,
  ◌∙◌, ◌⊎◌, Bool, true, false, ◌&&◌, ◌||◌, List, [], ◌∷◌, ◌++◌, ℤ, pos, negsuc, ltb_ℤ, leb_ℤ,
  if◌then◌else◌, length, take, take_all, take-append, Bytes, Bool-cases, inl, inr, arith,
}
use cverl.Tokenizer.Defs.{EncodeOptions}
use cverl.Tokenizer.Truncation.{limited}
use cverl.Bpe.Defs.{Impl, push_eos, resize_to, encode_loop, encode}

-- A special token that is asked for and that the tokenizer has.
abbrev pub special_id : Bool → ℤ → List ℤ
special_id asked id = if asked && leb_ℤ (pos 0) id then id ∷ [] else []

-- The two tests, for the size that they read.
abbrev push_sized : ℤ → ℤ → ℤ → List ℤ → List ℤ
push_sized size m id ids = if leb_ℤ m (pos 0) || ltb_ℤ size m then ids ++ (id ∷ []) else ids

abbrev resize_sized : ℤ → ℤ → List ℤ → List ℤ
resize_sized size m ids = if ltb_ℤ (pos 0) m && ltb_ℤ m size then take (pos_part m) ids else ids

resize_sized-limited :
    (m : ℤ) (ids : List ℤ) → resize_sized (pos (length ids)) m ids ≡ limited m ids
resize_sized-limited (pos zero) ids = refl
resize_sized-limited (negsuc n) ids =
    let none_asked : (ltb_ℤ (pos 0) (negsuc n) && ltb_ℤ (negsuc n) (pos (length ids))) ≡ false =
      ground arith in
    ap (λ t. if t then [] else ids) none_asked
resize_sized-limited (pos (suc n)) ids =
    by_test (Bool-cases (ltb_ℤ (pos 0) (pos (suc n)) && ltb_ℤ (pos (suc n)) (pos (length ids))))
  where
    by_test :
        ((ltb_ℤ (pos 0) (pos (suc n)) && ltb_ℤ (pos (suc n)) (pos (length ids))) ≡ true)
          ⊎ ((ltb_ℤ (pos 0) (pos (suc n)) && ltb_ℤ (pos (suc n)) (pos (length ids))) ≡ false)
        → resize_sized (pos (length ids)) (pos (suc n)) ids ≡ take (suc n) ids
    by_test (inl long) = ap (λ t. if t then take (suc n) ids else ids) long
    by_test (inr short) =
        ap (λ t. if t then take (suc n) ids else ids) short
        ∙ sym (take_all (suc n) ids (ground arith))

limited-push_sized :
    (m : ℤ) (ids : List ℤ) (id : ℤ)
    → limited m (push_sized (pos (length ids)) m id ids) ≡ limited m (ids ++ (id ∷ []))
limited-push_sized (pos zero) ids id = refl
limited-push_sized (negsuc n) ids id =
    let open_end : (leb_ℤ (negsuc n) (pos 0) || ltb_ℤ (pos (length ids)) (negsuc n)) ≡ true =
      ground arith in
    ap (λ t. if t then ids ++ (id ∷ []) else ids) open_end
limited-push_sized (pos (suc n)) ids id =
    by_test (Bool-cases (leb_ℤ (pos (suc n)) (pos 0) || ltb_ℤ (pos (length ids)) (pos (suc n))))
  where
    by_test :
        ((leb_ℤ (pos (suc n)) (pos 0) || ltb_ℤ (pos (length ids)) (pos (suc n))) ≡ true)
          ⊎ ((leb_ℤ (pos (suc n)) (pos 0) || ltb_ℤ (pos (length ids)) (pos (suc n))) ≡ false)
        → limited (pos (suc n)) (push_sized (pos (length ids)) (pos (suc n)) id ids)
          ≡ take (suc n) (ids ++ (id ∷ []))
    by_test (inl room) = ap (λ t. take (suc n) (if t then ids ++ (id ∷ []) else ids)) room
    by_test (inr full) =
        ap (λ t. take (suc n) (if t then ids ++ (id ∷ []) else ids)) full
        ∙ sym (take-append (suc n) ids (id ∷ []) (ground arith))

-- Fewer than 2^31 ids are counted right.
resize_to-limited : (m : ℤ) (ids : List ℤ) → length ids < 2 ^ 31 → resize_to m ids ≡ limited m ids
resize_to-limited m ids few =
    ap (λ size. resize_sized size m ids) (cast_int32-pos (length ids) few)
    ∙ resize_sized-limited m ids

limited-push_eos :
    (m : ℤ) (ids : List ℤ) (id : ℤ)
    → length ids < 2 ^ 31
    → limited m (push_eos m true id ids) ≡ limited m (ids ++ (id ∷ []))
limited-push_eos m ids id few =
    ap (λ size. limited m (push_sized size m id ids)) (cast_int32-pos (length ids) few)
    ∙ limited-push_sized m ids id

length-push_eos :
    (m : ℤ) (wanted : Bool) (id : ℤ) (ids : List ℤ)
    → length (push_eos m wanted id ids) ≤ length (ids ++ (if wanted then id ∷ [] else []))
length-push_eos m false id ids = rw (append-nil ids) (omega arith)
length-push_eos m true id ids = by_test (leb_ℤ m (pos 0) || ltb_ℤ (cast_int32 (pos (length ids))) m)
  where
    by_test : (t : Bool) → length (if t then ids ++ (id ∷ []) else ids) ≤ length (ids ++ (id ∷ []))
    by_test true = omega arith
    by_test false = omega (arith, length-append ids (id ∷ []))

-- The special tokens and the ids of the parts of a text, before the limit.
abbrev pub all_ids : Impl → Bytes → EncodeOptions → List ℤ
all_ids impl text options =
    (special_id options.add_bos impl.bos_id ++ encode_loop impl (length text) text)
    ++ special_id options.add_eos impl.eos_id

-- If the ids of a text's parts and the optional special tokens that the tokenizer has around them are
-- fewer than 2^31, the ids of the text are these, cut to max_tokens ids if that is positive.
pub encode-limited :
    (impl : Impl) (text : Bytes) (options : EncodeOptions)
    → length (all_ids impl text options) < 2 ^ 31
    → encode impl text options ≡ limited options.max_tokens (all_ids impl text options)
unfolding encode
encode-limited impl text options few =
    let wanted = options.add_eos && leb_ℤ (pos 0) impl.eos_id in
    resize_to-limited options.max_tokens _
      (omega (arith, few, length-push_eos options.max_tokens wanted impl.eos_id ids))
    ∙ by_wanted wanted
        (omega (arith, few, length-append ids (special_id options.add_eos impl.eos_id)))
  where
    ids : List ℤ
    ids = special_id options.add_bos impl.bos_id ++ encode_loop impl (length text) text

    by_wanted :
        (wanted : Bool)
        → length ids < 2 ^ 31
        → limited options.max_tokens (push_eos options.max_tokens wanted impl.eos_id ids)
          ≡ limited options.max_tokens (ids ++ (if wanted then impl.eos_id ∷ [] else []))
    by_wanted true few = limited-push_eos options.max_tokens ids impl.eos_id few
    by_wanted false few = sym (ap (limited options.max_tokens) (append-nil ids))
