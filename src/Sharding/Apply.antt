-- ===== src/Sharding/Apply.antt =====
-- The ways back from a shard to the parameters, and the gathering of the shards of a group. What the
-- other ranks send is the parameter `all_gather`.
use cverl.Base.{
  ℕ, ◌+◌, ◌*◌, ◌/◌, ◌%◌, Bool, not, ◌||◌, none, some, List, [], ◌∷◌, ◌++◌, map, ltb, ◌==◌,
  if◌then◌else◌, length, get_elem?, set, take, drop, Result, ok, err, ◌>>=◌, ◌>>◌, throw_if,
  invalid_argument, runtime_error,
}
use cverl.Sharding.Defs.{Scalars, Tensor, numel, FlatParameterShardRange, FlatParameterShard}

-- The position of a rank in its group, counted from i.
unfoldable pub rank_index_from : ℕ → ℕ → List ℕ → Result ℕ
rank_index_from i rank [] = err invalid_argument
rank_index_from i rank (g ∷ group) =
    let rest = rank_index_from (i + 1) rank group in if g == rank then ok i else rest

unfoldable pub rank_index_in_group : ℕ → List ℕ → Result ℕ
rank_index_in_group rank group = do
  throw_if (length group == 0) invalid_argument
  rank_index_from 0 rank group

pub record FlatShardGroupInfo : Type 0 where
  pub data_rank : ℕ
  pub data_parallel : ℕ
  pub shard_size : ℕ

-- `narrow(0, offset, n).copy_(source)`.
abbrev pub overwrite {ℓ} : {A : Type ℓ} → ℕ → List A → List A → List A
overwrite offset source target =
    take offset target ++ (source ++ drop (offset + length source) target)

module _ {Dtype A : Type 0} (scalars : Scalars Dtype A) where
  -- A tensor that is not a contiguous vector.
  abbrev pub is_no_vector : Tensor Dtype A → Bool
  is_no_vector t = not t.defined || (not (t.dim == 1) || not t.contiguous)

  unfoldable pub validate_flat_shard_for_group :
      FlatParameterShard Dtype A → ℕ → List ℕ → Result FlatShardGroupInfo
  validate_flat_shard_for_group local_shard rank group = do
    data_rank ← rank_index_in_group rank group
    let data_parallel = length group
    throw_if (is_no_vector local_shard.shard) invalid_argument
    throw_if
        (ltb local_shard.padded_numel local_shard.original_numel
          || not (local_shard.padded_numel % data_parallel == 0))
        invalid_argument
    let size = local_shard.padded_numel / data_parallel
    throw_if
        (not (numel local_shard.shard.elems == size)
          || (not (local_shard.shard_begin == data_rank * size)
              || not (local_shard.shard_end == local_shard.shard_begin + size)))
        invalid_argument
    ok (record { data_rank = data_rank; data_parallel = data_parallel; shard_size = size })

  -- The write of one range.
  unfoldable pub apply_range :
      Tensor Dtype A → FlatParameterShardRange → Tensor Dtype A → Result (Tensor Dtype A)
  apply_range shard range parameter = do
    throw_if
        (not parameter.defined
          || (not parameter.contiguous
              || ltb (numel parameter.elems) (range.parameter_offset + range.numel)))
        invalid_argument
    ok (record parameter {
      elems =
          overwrite range.parameter_offset
            (map (scalars.cast parameter.dtype)
              (take range.numel (drop range.shard_offset shard.elems)))
            parameter.elems;
    })

  unfoldable pub apply_ranges :
      Tensor Dtype A
      → List FlatParameterShardRange
      → List (Tensor Dtype A)
      → Result (List (Tensor Dtype A))
  apply_ranges shard [] parameters = ok parameters
  apply_ranges shard (range ∷ ranges) parameters = do
    throw_if (ltb (numel shard.elems) (range.shard_offset + range.numel)) invalid_argument
    parameter ← elim (get_elem? parameters range.parameter_index) [
      | none ↦ err invalid_argument
      | some parameter ↦ apply_range shard range parameter
    ]
    apply_ranges shard ranges (set parameters range.parameter_index parameter)

  unfoldable pub apply_flat_parameter_shard :
      FlatParameterShard Dtype A → List (Tensor Dtype A) → Result (List (Tensor Dtype A))
  apply_flat_parameter_shard shard parameters = do
    throw_if (is_no_vector shard.shard) invalid_argument
    apply_ranges shard.shard shard.ranges parameters

  -- The first loop of apply_full_flat_parameters.
  unfoldable pub count_parameters : ℕ → List (Tensor Dtype A) → Result ℕ
  count_parameters expected_numel [] = ok expected_numel
  count_parameters expected_numel (p ∷ parameters) = do
    throw_if (not p.defined || not p.contiguous) invalid_argument
    count_parameters (expected_numel + numel p.elems) parameters

  -- The second one.
  unfoldable pub copy_parameters : List A → ℕ → List (Tensor Dtype A) → List (Tensor Dtype A)
  copy_parameters flat offset [] = []
  copy_parameters flat offset (p ∷ parameters) =
      record p { elems = map (scalars.cast p.dtype) (take (numel p.elems) (drop offset flat)) }
      ∷ copy_parameters flat (offset + numel p.elems) parameters

  unfoldable pub apply_full_flat_parameters :
      Tensor Dtype A → ℕ → List (Tensor Dtype A) → Result (List (Tensor Dtype A))
  apply_full_flat_parameters flat_parameters original_numel parameters = do
    throw_if (is_no_vector flat_parameters) invalid_argument
    throw_if (ltb (numel flat_parameters.elems) original_numel) invalid_argument
    expected_numel ← count_parameters 0 parameters
    throw_if (not (expected_numel == original_numel)) invalid_argument
    ok (copy_parameters flat_parameters.elems 0 parameters)

  -- The collectives of one rank, as far as these functions call them.
  pub record Collectives : Type 0 where
    pub rank : ℕ
    pub all_gather : Tensor Dtype A → List ℕ → Result (Tensor Dtype A)

  -- The part for more than one rank.
  unfoldable pub gather_shards :
      FlatParameterShard Dtype A → Collectives → List ℕ → Result (Tensor Dtype A)
  gather_shards local_shard collectives group = do
    gathered ← collectives.all_gather local_shard.shard group
    throw_if (not (gathered.dim == 1) || not (numel gathered.elems == local_shard.padded_numel))
        runtime_error
    ok gathered

  unfoldable pub all_gather_flat_parameter_shards :
      FlatParameterShard Dtype A → Collectives → List ℕ → Result (Tensor Dtype A)
  all_gather_flat_parameter_shards local_shard collectives group = do
    info ← validate_flat_shard_for_group local_shard collectives.rank group
    (if info.data_parallel == 1
        then ok local_shard.shard
        else gather_shards local_shard collectives group)

  unfoldable pub all_gather_apply_flat_parameter_shard :
      FlatParameterShard Dtype A
      → Collectives
      → List ℕ
      → List (Tensor Dtype A)
      → Result (List (Tensor Dtype A))
  all_gather_apply_flat_parameter_shard local_shard collectives group parameters = do
    info ← validate_flat_shard_for_group local_shard collectives.rank group
    (if info.data_parallel == 1
        then apply_flat_parameter_shard local_shard parameters
        else (all_gather_flat_parameter_shards local_shard collectives group >>= λ gathered.
            apply_full_flat_parameters gathered local_shard.original_numel parameters))
