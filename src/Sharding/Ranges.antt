-- ===== src/Sharding/Ranges.antt =====
-- flat_tensor_range and flat_tensor_range_padded, which cut a range out of the tensors in order. The
-- tensor that they return is the list of its elements; offsets and counts are natural, as in Defs.
-- Whether `tensor.view({tensor.numel()})` succeeds depends on the strides, a parameter.
use cverl.Base.{
  ℕ, zero, suc, ◌+◌, ◌-◌, min, max, ◌≤◌, ◌≡◌, refl, ap, sym, ◌∙◌, Bool, true, false, List, [], ◌∷◌,
  ◌++◌, map, not, ltb, leb, All, Bool-cases, inl, inr, runtime_error, if◌then◌else◌, length,
  length-drop, take, drop, replicate, take-min, take-append_split, drop-append_split,
  take-replicate, drop-replicate, Result, ok, ◌>>=◌, ◌>>◌, throw_if, invalid_argument, le→ltb_false,
  arith,
}
use cverl.Sharding.Defs.{Scalars, Tensor, numel, pad_numel, padded_size, shard_parts}
use cverl.Sharding.Tiles.{flat, padded_flat, shard_parts_lem}

module _ {Dtype A : Type 0} (scalars : Scalars Dtype A) (viewable : Tensor Dtype A → Bool) where
  -- The part of a tensor that a range takes, if they overlap.
  abbrev pub overlap_part : Dtype → ℕ → ℕ → ℕ → Tensor Dtype A → Result (List A)
  overlap_part dtype tensor_begin overlap_begin overlap_end t =
      if ltb overlap_begin overlap_end
      then throw_if (not (viewable t)) runtime_error
        >> ok (
            map (scalars.cast dtype)
              (take (overlap_end - overlap_begin) (drop (overlap_begin - tensor_begin) t.elems)))
      else ok []

  -- The loop over the tensors, which ends behind the last one that it needs.
  unfoldable pub range_parts : Dtype → ℕ → ℕ → ℕ → List (Tensor Dtype A) → Result (List A)
  range_parts dtype remaining_begin remaining_end tensor_begin [] = ok []
  range_parts dtype remaining_begin remaining_end tensor_begin (t ∷ tensors) = do
    let tensor_end = tensor_begin + numel t.elems
    let rest = range_parts dtype remaining_begin remaining_end tensor_end tensors
    let overlap_begin = max tensor_begin remaining_begin
    let overlap_end = min tensor_end remaining_end
    part ← overlap_part dtype tensor_begin overlap_begin overlap_end t
    behind ← (if leb remaining_end tensor_end then ok [] else rest)
    ok (part ++ behind)

  unfoldable pub flat_tensor_range : List (Tensor Dtype A) → ℕ → ℕ → ℕ → Dtype → Result (List A)
  flat_tensor_range tensors original_numel begin count dtype = do
    throw_if (ltb original_numel (begin + count)) invalid_argument
    range_parts dtype begin (begin + count) 0 tensors

  -- How many elements of a range are not padding.
  abbrev pub valid_len : ℕ → ℕ → ℕ → ℕ
  valid_len original_numel begin count =
      if ltb begin original_numel then min count (original_numel - begin) else 0

  unfoldable pub flat_tensor_range_padded :
      List (Tensor Dtype A) → ℕ → ℕ → ℕ → ℕ → Dtype → Result (List A)
  flat_tensor_range_padded tensors original_numel padded_numel begin count dtype = do
    throw_if (ltb padded_numel (begin + count)) invalid_argument
    let len = valid_len original_numel begin count
    valid ← (if ltb 0 len then flat_tensor_range tensors original_numel begin len dtype else ok [])
    ok (valid ++ replicate (count - len) scalars.zero_scalar)

  -- The part of a tensor with a view, as the flattening takes it.
  overlap_part-viewable :
      (dtype : Dtype) (start begin end : ℕ) (t : Tensor Dtype A) (rest : List A)
      → viewable t ≡ true
      → (overlap_part dtype start begin end t >>= λ part. ok (part ++ rest))
        ≡ ok (
            if ltb begin end
            then map (scalars.cast dtype) (take (end - begin) (drop (begin - start) t.elems))
              ++ rest
            else rest)
  overlap_part-viewable dtype start begin end t rest view = elim (Bool-cases (ltb begin end)) [
    | inl overlap ↦ rw (overlap, view) refl
    | inr apart ↦ rw apart refl
  ]

  range_parts-shard_parts :
      (dtype : Dtype) (begin end start : ℕ) (tensors : List (Tensor Dtype A))
      → All (λ t. viewable t ≡ true) tensors
      → range_parts dtype begin end start tensors
        ≡ ok (shard_parts scalars dtype begin end start tensors)
  unfolding range_parts shard_parts
  range_parts-shard_parts dtype begin end start [] views = refl
  range_parts-shard_parts dtype begin end start (t ∷ tensors) views =
      let next = start + numel t.elems in
      let all = range_parts-shard_parts dtype begin end next tensors views.1 in
      ap
        (λ later. overlap_part dtype start (max start begin) (min next end) t >>= λ part.
          later >>= λ behind. ok (part ++ behind))
        (cut (leb end next) refl all)
      ∙ overlap_part-viewable dtype start (max start begin) (min next end) t
          (shard_parts scalars dtype begin end next tensors) views.0
    where
      cut :
          (b : Bool)
          → leb end (start + numel t.elems) ≡ b
          → range_parts dtype begin end (start + numel t.elems) tensors
            ≡ ok (shard_parts scalars dtype begin end (start + numel t.elems) tensors)
          → (if b then ok [] else range_parts dtype begin end (start + numel t.elems) tensors)
            ≡ ok (shard_parts scalars dtype begin end (start + numel t.elems) tensors)
      cut true done all =
          let none_left : end - max (start + numel t.elems) begin ≡ 0 = ground arith in
          ap ok (
            sym (
              shard_parts_lem scalars dtype tensors begin end (start + numel t.elems)
              ∙ ap
                  (λ k.
                    take k (drop (begin - (start + numel t.elems)) (flat scalars dtype tensors)))
                  none_left))
      cut false more all = all

  range_valid :
      (dtype : Dtype) (tensors : List (Tensor Dtype A)) (begin count len : ℕ)
      → All (λ t. viewable t ≡ true) tensors
      → valid_len (length (flat scalars dtype tensors)) begin count ≡ len
      → (if ltb 0 len
          then flat_tensor_range tensors (length (flat scalars dtype tensors)) begin len dtype
          else ok [])
        ≡ ok (take len (drop begin (flat scalars dtype tensors)))
  unfolding flat_tensor_range
  range_valid dtype tensors begin count zero views e = refl
  range_valid dtype tensors begin count (suc len) views e =
      let n = length (flat scalars dtype tensors) in
      let some_valid : ltb 0 (suc len) ≡ true = ground arith in
      let fits : ltb n (begin + suc len) ≡ false = ground (arith, e) in
      let width : begin + suc len - max 0 begin ≡ suc len = omega arith in
      let from : begin - 0 ≡ begin = omega arith in
      rw (some_valid, fits)
        (range_parts-shard_parts dtype begin (begin + suc len) 0 tensors views
          ∙ ap ok (
              shard_parts_lem scalars dtype tensors begin (begin + suc len) 0
              ∙ ap (λ k. take k (drop (begin - 0) (flat scalars dtype tensors))) width
              ∙ ap (λ k. take (suc len) (drop k (flat scalars dtype tensors))) from))

  -- Where a contiguous tensor has a flat view: of contiguous tensors, a range that ends in the padded
  -- whole is cut out of it. Its elements are those of the tensors in order, converted, and behind
  -- them the zeros of the padding.
  pub flat_tensor_range_padded-padded_flat :
      (dtype : Dtype) (dp begin count : ℕ) (tensors : List (Tensor Dtype A))
      → ((t : Tensor Dtype A) → t.contiguous ≡ true → viewable t ≡ true)
      → All (λ t. t.contiguous ≡ true) tensors
      → begin + count ≤ padded_size (length (flat scalars dtype tensors)) dp
      → flat_tensor_range_padded tensors
          (length (flat scalars dtype tensors))
          (padded_size (length (flat scalars dtype tensors)) dp)
          begin
          count
          dtype
        ≡ ok (take count (drop begin (padded_flat scalars dtype dp tensors)))
  unfolding flat_tensor_range_padded padded_flat
  flat_tensor_range_padded-padded_flat dtype dp begin count tensors view contiguous fits =
      let xs = flat scalars dtype tensors in
      let n = length xs in
      let pad = pad_numel n dp in
      let z = scalars.zero_scalar in
      let len = valid_len n begin count in
      let inside : ltb (padded_size n dp) (begin + count) ≡ false =
        le→ltb_false (padded_size n dp) (begin + count) fits in
      let left : count - length (drop begin xs) ≡ count - (n - begin) =
        rw (length-drop begin xs) refl in
      let valid : take len (drop begin xs) ≡ take count (drop begin xs) =
        ap (λ k. take k (drop begin xs))
          (len_min n begin count (length (drop begin xs)) (length-drop begin xs))
        ∙ take-min count (drop begin xs) in
      let zeros : count - len ≡ min (count - (n - begin)) (pad - (begin - n)) =
        len_zeros n pad begin count fits in
      let viewed = all_views tensors contiguous in
      rw (inside, range_valid dtype tensors begin count len viewed refl)
        (ap ok (
          ap (λ ys. ys ++ replicate (count - len) z) valid
          ∙ ap (λ k. take count (drop begin xs) ++ replicate k z) zeros
          ∙ sym (
              rw
                (
                  drop-append_split begin xs (replicate pad z),
                  take-append_split count (drop begin xs) (drop (begin - n) (replicate pad z)),
                  left,
                  drop-replicate (begin - n) pad z,
                  take-replicate (count - (n - begin)) (pad - (begin - n)) z,
                )
                refl)))
    where
      all_views :
          (ts : List (Tensor Dtype A))
          → All (λ t. t.contiguous ≡ true) ts
          → All (λ t. viewable t ≡ true) ts
      all_views [] h = tt
      all_views (t ∷ ts) h = (view t h.0, all_views ts h.1)

      len_min : (n b c m : ℕ) → m ≡ n - b → valid_len n b c ≡ min c m
      len_min n b c m e = ground arith

      len_zeros :
          (n p b c : ℕ) → b + c ≤ n + p → c - valid_len n b c ≡ min (c - (n - b)) (p - (b - n))
      len_zeros n p b c h = ground arith
