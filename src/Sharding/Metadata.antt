-- ===== src/Sharding/Metadata.antt =====
-- tensor_numels and make_flat_shard_metadata, which rebuilds what flattening says about a shard.
use cverl.Base.{
  ℕ, ◌+◌, ◌*◌, ◌<◌, ◌≡◌, refl, ap, ◌∙◌, true, false, not, ◌||◌, List, [], ◌∷◌, map, ℤ, pos,
  pos_part, ltb_ℤ, ◌==◌, ==_iff, length, length-append, length-map, All, Result, ok, ◌>>=◌, ◌>>◌,
  throw_if, invalid_argument, arith,
}
use cverl.Sharding.Defs.{
  Scalars, Tensor, numel, FlatParameterShard, validate_dp_rank, padded_size, shard_size,
  shard_ranges, make_shard, flatten_tensor_list_shard,
}
use cverl.Sharding.Tiles.{flat, length-make_shard}
use cverl.Sharding.Flatten.{IsReady, device_of, valid_rank, flatten_tensor_list_shard-make_shard}
use cverl.Sharding.Apply.{is_no_vector}

-- The first loop of make_flat_shard_metadata.
unfoldable pub sum_numels : ℕ → List ℤ → Result ℕ
sum_numels original_numel [] = ok original_numel
sum_numels original_numel (n ∷ tensor_numels) = do
  throw_if (ltb_ℤ n (pos 0)) invalid_argument
  sum_numels (original_numel + pos_part n) tensor_numels

module _ {Dtype A : Type 0} (scalars : Scalars Dtype A) where
  unfoldable pub tensor_numels : List (Tensor Dtype A) → Result (List ℤ)
  tensor_numels [] = ok []
  tensor_numels (t ∷ tensors) = do
    throw_if (not t.defined) invalid_argument
    rest ← tensor_numels tensors
    ok (pos (numel t.elems) ∷ rest)

  unfoldable pub make_flat_shard_metadata :
      List ℤ → ℤ → ℤ → Tensor Dtype A → Result (FlatParameterShard Dtype A)
  make_flat_shard_metadata numels data_parallel data_rank shard = do
    validate_dp_rank data_parallel data_rank
    original_numel ← sum_numels 0 numels
    let dp = pos_part data_parallel
    let size = shard_size original_numel dp
    throw_if (is_no_vector scalars shard || not (numel shard.elems == size)) invalid_argument
    let shard_begin = pos_part data_rank * size
    ok (record {
      shard = shard;
      original_numel = original_numel;
      padded_numel = padded_size original_numel dp;
      shard_begin = shard_begin;
      shard_end = shard_begin + size;
      ranges = shard_ranges shard_begin (shard_begin + size) 0 0 (map pos_part numels);
    })

  abbrev numels_of : List (Tensor Dtype A) → List ℤ
  numels_of = map (λ t. pos (numel t.elems))

  tensor_numels-IsReady :
      (dtype : Dtype) (device : ℕ) (tensors : List (Tensor Dtype A))
      → All (IsReady scalars dtype device) tensors
      → tensor_numels tensors ≡ ok (numels_of tensors)
  unfolding tensor_numels
  tensor_numels-IsReady dtype device [] h = refl
  tensor_numels-IsReady dtype device (t ∷ tensors) h =
      rw (h.0.0, tensor_numels-IsReady dtype device tensors h.1) refl

  sum_numels-flat :
      (dtype : Dtype) (n : ℕ) (tensors : List (Tensor Dtype A))
      → sum_numels n (numels_of tensors) ≡ ok (n + length (flat scalars dtype tensors))
  unfolding sum_numels flat
  sum_numels-flat dtype n [] = ap ok (omega arith)
  sum_numels-flat dtype n (t ∷ tensors) =
      let natural : ltb_ℤ (pos (length t.elems)) (pos 0) ≡ false = ground arith in
      let whole : n + length t.elems + length (flat scalars dtype tensors)
          ≡ n + length (flat scalars dtype (t ∷ tensors)) =
        omega (
          arith,
          length-append (map (scalars.cast dtype) t.elems) (flat scalars dtype tensors),
          length-map (scalars.cast dtype) t.elems,
        ) in
      rw natural (sum_numels-flat dtype (n + length t.elems) tensors ∙ ap ok whole)

  numels_back :
      (tensors : List (Tensor Dtype A))
      → map pos_part (numels_of tensors) ≡ map (λ t. numel t.elems) tensors
  numels_back [] = refl
  numels_back (t ∷ tensors) = ap (◌∷◌ (length t.elems)) (numels_back tensors)

  -- Of contiguous tensors on one device, the metadata made from their sizes and the shard of a rank is
  -- all that flattening says of that shard.
  pub make_flat_shard_metadata-flatten_tensor_list_shard :
      (dtype : Dtype) (device dp rank : ℕ) (tensors : List (Tensor Dtype A))
      → rank < dp
      → All (IsReady scalars dtype device) tensors
      → (flat_shard : FlatParameterShard Dtype A) × (flatten_tensor_list_shard scalars tensors
            (pos dp)
            (pos rank)
            dtype
          ≡ ok flat_shard)
        × ((tensor_numels tensors >>= λ numels.
              make_flat_shard_metadata numels (pos dp) (pos rank) flat_shard.shard)
            ≡ ok flat_shard)
  unfolding make_flat_shard_metadata validate_dp_rank make_shard
  make_flat_shard_metadata-flatten_tensor_list_shard dtype device dp rank tensors h ready =
      let n = length (flat scalars dtype tensors) in
      let made =
        make_shard scalars dtype (device_of scalars dtype device tensors) n dp rank tensors in
      let size : (numel made.shard.elems == shard_size n dp) ≡ true =
        (==_iff (numel made.shard.elems) (shard_size n dp)).1 (
          length-make_shard scalars dtype (device_of scalars dtype device tensors) dp rank tensors
            h) in
      let total : sum_numels 0 (numels_of tensors) ≡ ok n =
        sum_numels-flat dtype 0 tensors ∙ ap ok (omega arith) in
      (
        made,
        flatten_tensor_list_shard-make_shard scalars dtype device dp rank tensors h ready,
        rw (tensor_numels-IsReady dtype device tensors ready, valid_rank dp rank h, total, size)
            (ap
              (λ ns. ok (record made {
                ranges =
                    shard_ranges (rank * shard_size n dp) (rank * shard_size n dp + shard_size n dp)
                      0 0 ns;
              }))
              (numels_back tensors)),
      )
