-- ===== src/Sharding/Gather.antt =====
-- The round trip: shards of a group, gathered and applied, bring back the parameters.
use mathlib.Core.List.{flat_map, append_assoc}
use cverl.Base.{
  ℕ, ◌+◌, ◌*◌, ◌%◌, ◌<◌, ◌≡◌, refl, ap, sym, ◌∙◌, true, false, not, List, [], ◌∷◌, ◌++◌, map, pos,
  ◌==◌, ltb, length, length-append, length-map, replicate, range, take, drop, take_left, drop_left,
  drop-drop, All, ok, map_result, ok-injective, subst, arith,
}
use cverl.Sharding.Defs.{
  Scalars, Tensor, FlatParameterShard, flat_tensor, make_shard, flatten_tensor_list_shard,
  padded_size, shard_size, pad_numel,
}
use cverl.Sharding.Tiles.{flat, padded_flat, padded_size_mul, length-padded_flat, length-make_shard}
use cverl.Topology.Radix.{mod_digits}
use cverl.Sharding.Flatten.{
  IsReady, device_of, flatten_tensor_list_shard-make_shard, flatten_tensor_list_shard-padded_flat,
}
use cverl.Sharding.Apply.{
  rank_index_in_group, validate_flat_shard_for_group, count_parameters, copy_parameters,
  apply_full_flat_parameters, Collectives, gather_shards, all_gather_flat_parameter_shards,
  all_gather_apply_flat_parameter_shard,
}

module _ {Dtype A : Type 0} (scalars : Scalars Dtype A) (dtype : Dtype) where
  -- The first tensors with the values of the second ones, converted to the shard's type and back.
  abbrev pub refill : List (Tensor Dtype A) → List (Tensor Dtype A) → List (Tensor Dtype A)
  refill (q ∷ targets) (p ∷ sources) =
      record q { elems = map (scalars.cast q.dtype) (map (scalars.cast dtype) p.elems) }
      ∷ refill targets sources
  refill _ _ = []

  -- Two lists of tensors of the same sizes, the first ready to be written.
  abbrev pub CanHold : List (Tensor Dtype A) → List (Tensor Dtype A) → Type 0
  CanHold [] [] = Unit
  CanHold (q ∷ targets) (p ∷ sources) =
      (q.defined ≡ true)
      × (q.contiguous ≡ true)
      × (length q.elems ≡ length p.elems)
      × CanHold targets sources
  CanHold _ _ = ⊥

  count_parameters-CanHold :
      (n : ℕ) (targets sources : List (Tensor Dtype A))
      → CanHold targets sources
      → count_parameters scalars n targets ≡ ok (n + length (flat scalars dtype sources))
  unfolding count_parameters flat
  count_parameters-CanHold n [] [] h = ap ok (omega arith)
  count_parameters-CanHold n (q ∷ targets) (p ∷ sources) h =
      let whole : n + length q.elems + length (flat scalars dtype sources)
          ≡ n + length (map (scalars.cast dtype) p.elems ++ flat scalars dtype sources) =
        omega (
          arith,
          length-append (map (scalars.cast dtype) p.elems) (flat scalars dtype sources),
          length-map (scalars.cast dtype) p.elems,
          h.2,
        ) in
      rw (h.0, h.1)
        (count_parameters-CanHold (n + length q.elems) targets sources h.3 ∙ ap ok whole)
  count_parameters-CanHold n [] (p ∷ sources) h = absurd h
  count_parameters-CanHold n (q ∷ targets) [] h = absurd h

  copy_parameters-CanHold :
      (xs rest : List A) (offset : ℕ) (targets sources : List (Tensor Dtype A))
      → CanHold targets sources
      → drop offset xs ≡ flat scalars dtype sources ++ rest
      → copy_parameters scalars xs offset targets ≡ refill targets sources
  unfolding copy_parameters flat
  copy_parameters-CanHold xs rest offset [] [] h at_offset = refl
  copy_parameters-CanHold xs rest offset (q ∷ targets) (p ∷ sources) h at_offset =
      let first = map (scalars.cast dtype) p.elems in
      let behind = flat scalars dtype sources ++ rest in
      let here : drop offset xs ≡ first ++ behind =
        at_offset ∙ append_assoc first (flat scalars dtype sources) rest in
      let size : length q.elems ≡ length first =
        h.2 ∙ sym (length-map (scalars.cast dtype) p.elems) in
      let taken : take (length q.elems) (drop offset xs) ≡ first =
        rw (here, size) (take_left first behind) in
      let next : drop (offset + length q.elems) xs ≡ behind =
        sym (drop-drop (length q.elems) offset xs) ∙ rw (here, size) (drop_left first behind) in
      ap
        (λ ys.
          record q { elems = map (scalars.cast q.dtype) ys }
          ∷ copy_parameters scalars xs (offset + length q.elems) targets)
        taken
      ∙ ap (◌∷◌ (record q { elems = map (scalars.cast q.dtype) first }))
          (copy_parameters-CanHold xs rest (offset + length q.elems) targets sources h.3 next)
  copy_parameters-CanHold xs rest offset [] (p ∷ sources) h at_offset = absurd h
  copy_parameters-CanHold xs rest offset (q ∷ targets) [] h at_offset = absurd h

  equal_test : (a b : ℕ) → a ≡ b → not (a == b) ≡ false
  equal_test a b h = ground arith

  validate-make_shard :
      (device dp r rank : ℕ) (group : List ℕ) (tensors : List (Tensor Dtype A))
      → rank_index_in_group rank group ≡ ok r
      → length group ≡ dp
      → r < dp
      → (let n = length (flat scalars dtype tensors) in
          validate_flat_shard_for_group scalars
            (make_shard scalars dtype device n dp r tensors)
            rank
            group
          ≡ ok (record { data_rank = r; data_parallel = dp; shard_size = shard_size n dp }))
  unfolding validate_flat_shard_for_group make_shard
  validate-make_shard device dp r rank group tensors found width h =
      let n = length (flat scalars dtype tensors) in
      let size = shard_size n dp in
      let enough : ltb (padded_size n dp) n ≡ false = ground arith in
      let whole : padded_size n dp % dp ≡ 0 =
        ap (λ m. m % dp) (sym (padded_size_mul n dp (omega arith)) ∙ omega arith)
        ∙ mod_digits size 0 dp (omega arith) in
      rw (
        found,
        width,
        enough,
        equal_test (padded_size n dp % dp) 0 whole,
        equal_test (length (make_shard scalars dtype device n dp r tensors).shard.elems) size
            (length-make_shard scalars dtype device dp r tensors h),
        equal_test (r * size) (r * size) refl,
        equal_test (r * size + size) (r * size + size) refl,
      )

  apply_full-padded_flat :
      (device dp : ℕ) (targets sources : List (Tensor Dtype A))
      → CanHold targets sources
      → apply_full_flat_parameters scalars
          (flat_tensor scalars dtype device (padded_flat scalars dtype dp sources))
          (length (flat scalars dtype sources))
          targets
        ≡ ok (refill targets sources)
  unfolding apply_full_flat_parameters
  apply_full-padded_flat device dp targets sources h =
      let n = length (flat scalars dtype sources) in
      let size = length-padded_flat scalars dtype dp sources in
      let enough : ltb (length (padded_flat scalars dtype dp sources)) n ≡ false = ground arith in
      rw (enough, count_parameters-CanHold 0 targets sources h, equal_test (0 + n) n (omega arith))
        (ap ok (
          copy_parameters-CanHold (padded_flat scalars dtype dp sources)
            (replicate (pad_numel n dp) scalars.zero_scalar) 0 targets sources h
            (unfold padded_flat in refl)))

  -- Where the tensors are contiguous and on one device, the group has more than one rank and this rank
  -- is in it, and all_gather returns the shards of the group's ranks one behind the other: the shard
  -- that flattening gives this rank, gathered and applied to contiguous tensors of the same sizes,
  -- gives these the values of the flattened tensors, converted to the shard's type and back.
  pub all_gather_apply_flat_parameter_shard-refill :
      (collectives : Collectives scalars) (group : List ℕ) (device r d : ℕ)
      (targets sources : List (Tensor Dtype A)) (local_shard : FlatParameterShard Dtype A)
      → All (IsReady scalars dtype device) sources
      → CanHold targets sources
      → rank_index_in_group collectives.rank group ≡ ok r
      → r < length group
      → 1 < length group
      → flatten_tensor_list_shard scalars sources (pos (length group)) (pos r) dtype
        ≡ ok local_shard
      → ((shards : List (FlatParameterShard Dtype A))
          → map_result
              (λ k. flatten_tensor_list_shard scalars sources (pos (length group)) (pos k) dtype)
              (range 0 (length group))
            ≡ ok shards
          → collectives.all_gather local_shard.shard group
            ≡ ok (flat_tensor scalars dtype d (flat_map (λ s. s.shard.elems) shards)))
      → all_gather_apply_flat_parameter_shard scalars local_shard collectives group targets
        ≡ ok (refill targets sources)
  unfolding all_gather_apply_flat_parameter_shard all_gather_flat_parameter_shards gather_shards
      make_shard
  all_gather_apply_flat_parameter_shard-refill collectives group device r d targets sources
        local_shard ready holds found in_group many flattened gathers =
      let dp = length group in
      let n = length (flat scalars dtype sources) in
      let mine = make_shard scalars dtype (device_of scalars dtype device sources) n dp r sources in
      let is_mine : mine ≡ local_shard = ok-injective (
        sym (flatten_tensor_list_shard-make_shard scalars dtype device dp r sources in_group ready)
        ∙ flattened) in
      let tiles =
        flatten_tensor_list_shard-padded_flat scalars dtype device dp sources (omega arith) ready in
      let gathered : collectives.all_gather mine.shard group
          ≡ ok (flat_tensor scalars dtype d (padded_flat scalars dtype dp sources)) =
        ap (λ s. collectives.all_gather s.shard group) is_mine
        ∙ gathers tiles.0 tiles.1
        ∙ ap (λ xs. ok (flat_tensor scalars dtype d xs)) tiles.2 in
      let several : (dp == 1) ≡ false = ground arith in
      let valid =
        validate-make_shard (device_of scalars dtype device sources) dp r collectives.rank group
          sources found refl in_group in
      let whole =
        equal_test (length (padded_flat scalars dtype dp sources)) (padded_size n dp)
          (length-padded_flat scalars dtype dp sources) in
      subst
        (λ s.
          all_gather_apply_flat_parameter_shard scalars s collectives group targets
          ≡ ok (refill targets sources))
        is_mine
        (rw (valid, several, gathered, whole) (apply_full-padded_flat d dp targets sources holds))
