-- ===== src/Sharding/Tiles.antt =====
-- The shards of all ranks, put together, are the tensors in order and the padding.
use native.Mathlib.Nat.{mul-div_cancel}
use mathlib.Core.List.{flat_map}
use cverl.Base.{
  ℕ, ◌+◌, ◌-◌, ◌*◌, ◌/◌, ◌%◌, min, max, ◌≤◌, ◌<◌, ◌≡◌, refl, ap, sym, ◌∙◌, Bool, true, false, List,
  [], ◌∷◌, ◌++◌, map, ltb, ◌==◌, if◌then◌else◌, length, take, drop, replicate, range, length-append,
  length-map, length-replicate, length-take, length-drop, take_all, drop_all, take-append_split,
  drop-append_split, take-min, take-replicate, drop-replicate, flat_map-blocks, flat_map-range,
  map-take, map-drop, Bool-cases, inl, inr, arith, subst,
}
use cverl.Topology.Radix.{div_mod, mod_lt}
use cverl.Sharding.Defs.{
  Scalars, Tensor, pad_numel, padded_size, shard_size, shard_parts, make_shard,
}

below : (r d s : ℕ) → r < d → r * s + s ≤ s * d
below r d s h = grind arith

pub padded_size_mul : (n dp : ℕ) → 0 < dp → shard_size n dp * dp ≡ padded_size n dp
padded_size_mul n dp h = elim (Bool-cases (n % dp == 0)) [
  | inl even ↦
      let full : n ≡ n / dp * dp = ground (arith, div_mod n dp) in
      rw even (exact (n / dp) dp (n + 0) h (omega (arith, full)))
  | inr odd ↦
      let over : (n / dp + 1) * dp ≡ n / dp * dp + dp = omega arith in
      rw odd (
        exact (n / dp + 1) dp (n + (dp - n % dp)) h
          (omega (arith, over, div_mod n dp, mod_lt n dp h)))
]
  where
    exact : (q d m : ℕ) → 0 < d → m ≡ q * d → m / d * d ≡ m
    exact q d m h e = rw (e, mul-div_cancel q {n = d} h)

module _ {Dtype A : Type 0} (scalars : Scalars Dtype A) (dtype : Dtype) where
  -- All elements of the tensors, converted, in order.
  unfoldable pub flat : List (Tensor Dtype A) → List A
  flat [] = []
  flat (t ∷ tensors) = map (scalars.cast dtype) t.elems ++ flat tensors

  -- The part of one tensor is a slice of it, empty where they do not overlap.
  one_part :
      (xs : List A) (begin end start : ℕ)
      → (if ltb (max start begin) (min (start + length xs) end)
          then take
              (min (start + length xs) end - max start begin)
              (drop (max start begin - start) xs)
          else [])
        ≡ take (end - max start begin) (drop (begin - start) xs)
  one_part xs begin end start =
      let skipped : max start begin - start ≡ begin - start = omega arith in
      let size : length (drop (begin - start) xs) ≡ length xs - (begin - start) =
        length-drop (begin - start) xs in
      elim (Bool-cases (ltb (max start begin) (min (start + length xs) end))) [
        | inl h ↦
            let wanted : min (start + length xs) end - max start begin
                ≡ min (end - max start begin) (length (drop (begin - start) xs)) =
              ground arith in
            rw (h, skipped, wanted) (take-min (end - max start begin) (drop (begin - start) xs))
        | inr h ↦
            let none_wanted : min (end - max start begin) (length (drop (begin - start) xs)) ≡ 0 =
              ground arith in
            rw h (
              sym (ap (λ k. take k (drop (begin - start) xs)) none_wanted)
              ∙ take-min (end - max start begin) (drop (begin - start) xs))
      ]

  pub shard_parts_lem :
      (tensors : List (Tensor Dtype A)) (begin end start : ℕ)
      → shard_parts scalars dtype begin end start tensors
        ≡ take (end - max start begin) (drop (begin - start) (flat tensors))
  unfolding shard_parts flat
  shard_parts_lem [] begin end start =
      let nothing : drop {A = A} (begin - start) [] ≡ [] =
        drop_all {A = A} (begin - start) [] (omega arith) in
      rw (nothing, take_all {A = A} (end - max start begin) [] (omega arith))
  shard_parts_lem (t ∷ tensors) begin end start =
      let k = end - max start begin in
      let j = begin - start in
      let xs = map (scalars.cast dtype) t.elems in
      let n = length t.elems in
      let size : length xs ≡ n = length-map (scalars.cast dtype) t.elems in
      let size' : length (drop j xs) ≡ n - j = rw (length-drop j xs, size) in
      let k' : end - max (start + n) begin ≡ k - (n - j) = omega arith in
      let j' : begin - (start + n) ≡ j - n = omega arith in
      let inner : map (scalars.cast dtype) (take k (drop j t.elems)) ≡ take k (drop j xs) =
        map-take (scalars.cast dtype) k (drop j t.elems)
        ∙ ap (take k) (map-drop (scalars.cast dtype) j t.elems) in
      let split : take k (drop j (xs ++ flat tensors))
          ≡ take k (drop j xs)
            ++ take (end - max (start + n) begin) (drop (begin - (start + n)) (flat tensors)) =
        rw (
          drop-append_split j xs (flat tensors),
          take-append_split k (drop j xs) (drop (j - length xs) (flat tensors)),
          size',
          size,
          k',
          j',
        ) in
      branch_part (ltb (max start begin) (min (start + n) end)) _
        (shard_parts scalars dtype begin end (start + n) tensors)
      ∙ ap
          (λ ys.
            map (scalars.cast dtype) ys ++ shard_parts scalars dtype begin end (start + n) tensors)
          (one_part t.elems begin end start)
      ∙ ap (λ ys. ys ++ shard_parts scalars dtype begin end (start + n) tensors) inner
      ∙ ap (◌++◌ (take k (drop j xs))) (shard_parts_lem tensors begin end (start + n))
      ∙ sym split
    where
      branch_part :
          (b : Bool) (part : List A) (rest : List A)
          → (if b then map (scalars.cast dtype) part ++ rest else rest)
            ≡ map (scalars.cast dtype) (if b then part else []) ++ rest
      branch_part true part rest = refl
      branch_part false part rest = refl

  -- The tensors in order and the zeros that fill the last shard.
  unfoldable pub padded_flat : ℕ → List (Tensor Dtype A) → List A
  padded_flat data_parallel tensors =
      flat tensors
      ++ replicate (pad_numel (length (flat tensors)) data_parallel) scalars.zero_scalar

  -- A shard is its slice of the padded whole.
  pub shard-padded_flat :
      (device dp rank : ℕ) (tensors : List (Tensor Dtype A))
      → rank < dp
      → (let n = length (flat tensors) in
          (make_shard scalars dtype device n dp rank tensors).shard.elems
          ≡ take (shard_size n dp) (drop (rank * shard_size n dp) (padded_flat dp tensors)))
  unfolding make_shard padded_flat
  shard-padded_flat device dp rank tensors h =
      let xs = flat tensors in
      let n = length xs in
      let size = shard_size n dp in
      let begin = rank * size in
      let pad = pad_numel n dp in
      let z = scalars.zero_scalar in
      let whole = padded_size_mul n dp (omega arith) in
      let fits : begin + size ≤ n + pad =
        subst (λ m. begin + size ≤ m) whole (below rank dp size h) in
      let width : begin + size - max 0 begin ≡ size = omega arith in
      let start : begin - 0 ≡ begin = omega arith in
      let left : size - length (drop begin xs) ≡ size - (n - begin) = rw (length-drop begin xs) in
      let zeros : min (size - (n - begin)) (pad - (begin - n))
          ≡ size - (min (begin + size) n - min begin n) =
        omega arith in
      rw (shard_parts_lem tensors begin (begin + size) 0, width, start)
        (sym (
          rw (
            drop-append_split begin xs (replicate pad z),
            take-append_split size (drop begin xs) (drop (begin - n) (replicate pad z)),
            left,
            drop-replicate (begin - n) pad z,
            take-replicate (size - (n - begin)) (pad - (begin - n)) z,
            zeros,
          )))

  pub length-padded_flat :
      (dp : ℕ) (tensors : List (Tensor Dtype A))
      → length (padded_flat dp tensors) ≡ padded_size (length (flat tensors)) dp
  unfolding padded_flat
  length-padded_flat dp tensors =
      let pad = pad_numel (length (flat tensors)) dp in
      omega (
        arith,
        length-append (flat tensors) (replicate pad scalars.zero_scalar),
        length-replicate pad scalars.zero_scalar,
      )

  pub length-make_shard :
      (device dp rank : ℕ) (tensors : List (Tensor Dtype A))
      → rank < dp
      → (let n = length (flat tensors) in
          length (make_shard scalars dtype device n dp rank tensors).shard.elems ≡ shard_size n dp)
  length-make_shard device dp rank tensors h =
      let n = length (flat tensors) in
      let size = shard_size n dp in
      let xs = padded_flat dp tensors in
      let whole : length xs ≡ size * dp =
        length-padded_flat dp tensors ∙ sym (padded_size_mul n dp (omega arith)) in
      let fits : rank * size + size ≤ length xs =
        subst (λ m. rank * size + size ≤ m) (sym whole) (below rank dp size h) in
      ap length (shard-padded_flat device dp rank tensors h)
      ∙ omega (arith, length-take size (drop (rank * size) xs), length-drop (rank * size) xs)

  -- The blocks of all ranks make up the padded whole.
  pub shards-padded_flat :
      (device dp : ℕ) (tensors : List (Tensor Dtype A))
      → 0 < dp
      → flat_map
          (λ rank.
            (make_shard scalars dtype device (length (flat tensors)) dp rank tensors).shard.elems)
          (range 0 dp)
        ≡ padded_flat dp tensors
  unfolding padded_flat
  shards-padded_flat device dp tensors h =
      let n = length (flat tensors) in
      let xs = padded_flat dp tensors in
      let size : length xs ≡ dp * shard_size n dp =
        omega (arith, length-padded_flat dp tensors, padded_size_mul n dp h) in
      let begin : 0 * shard_size n dp ≡ 0 = omega arith in
      flat_map-range (λ rank. (make_shard scalars dtype device n dp rank tensors).shard.elems)
        (λ r. take (shard_size n dp) (drop (r * shard_size n dp) xs)) 0 dp
        (λ r a b. shard-padded_flat device dp r tensors (omega arith))
      ∙ flat_map-blocks (shard_size n dp) xs 0 dp
      ∙ ap (λ k. take (dp * shard_size n dp) (drop k xs)) begin
      ∙ take_all (dp * shard_size n dp) xs (omega arith)
