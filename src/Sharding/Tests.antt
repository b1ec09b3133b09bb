-- ===== src/Sharding/Tests.antt =====
-- Two tensors of three and two elements over two ranks, and the theorems applied to them.
use mathlib.Core.List.{flat_map}
use cverl.Sharding.Owners.{
  at, insert_by_size, sort_by_size, least_loaded, own, own_all, has_negative,
  greedy_parameter_owner_by_size, owned_parameter_indices,
}
use cverl.Sharding.Balance.{total, greedy_parameter_owner_by_size-owned_parameter_indices}
use cverl.Sharding.Ranges.{flat_tensor_range_padded, flat_tensor_range_padded-padded_flat}
use cverl.Sharding.Metadata.{
  tensor_numels, make_flat_shard_metadata, make_flat_shard_metadata-flatten_tensor_list_shard,
}
use cverl.Base.{
  take, drop, zero, suc, ◌+◌, ◌≤◌, ◌<◌, length, ◌>>=◌, ℕ, ◌%◌, ◌^◌, ◌≡◌, refl, ap, sym, ◌∙◌, List,
  [], ◌∷◌, ◌++◌, map, pos, range, All, ok, ok-injective, map_result, arith,
}
use cverl.Sharding.Defs.{
  padded_size, Scalars, Tensor, FlatParameterShard, validate_dp_rank, check_tensors, shard_parts,
  flat_tensor, make_shard, flatten_tensor_list_shard,
}
use cverl.Sharding.Tiles.{flat, padded_flat}
use cverl.Sharding.Flatten.{IsReady, flatten_tensor_list_shard-padded_flat}
use cverl.Sharding.Apply.{
  rank_index_from, rank_index_in_group, Collectives, all_gather_apply_flat_parameter_shard,
}
use cverl.Sharding.Gather.{refill, all_gather_apply_flat_parameter_shard-refill}

-- A dtype is a number of bits.
abbrev scalars : Scalars ℕ ℕ
scalars = record { zero_scalar = 0; cast = λ bits x. x % 2 ^ bits; float32 = 32 }

abbrev sources : List (Tensor ℕ ℕ)
sources = flat_tensor scalars 32 1 (1 ∷ 2 ∷ 3 ∷ []) ∷ flat_tensor scalars 32 1 (300 ∷ 5 ∷ []) ∷ []

abbrev targets : List (Tensor ℕ ℕ)
targets = flat_tensor scalars 16 0 (0 ∷ 0 ∷ 0 ∷ []) ∷ flat_tensor scalars 2 0 (0 ∷ 0 ∷ []) ∷ []

abbrev local_shard : FlatParameterShard ℕ ℕ
local_shard = make_shard scalars 8 1 5 2 0 sources

-- Rank 4 of the group of 4 and 7; what rank 7 sends stands in it.
abbrev collectives : Collectives scalars
collectives = record {
  rank = 4;
  all_gather = λ mine group. ok (flat_tensor scalars 8 0 (mine.elems ++ 44 ∷ 5 ∷ 0 ∷ []));
}

second_rank_ranges : (make_shard scalars 8 1 5 2 1 sources).shard.elems ≡ 44 ∷ 5 ∷ 0 ∷ []
unfolding make_shard shard_parts
second_rank_ranges = refl

padded : padded_flat scalars 8 2 sources ≡ 1 ∷ 2 ∷ 3 ∷ 44 ∷ 5 ∷ 0 ∷ []
unfolding padded_flat flat
padded = refl

sources-IsReady : All (IsReady scalars 8 1) sources
sources-IsReady = ((refl, refl, refl), ((refl, refl, refl), tt))

flatten_tensor_list_shard-padded_flat_example :
    (shards : List (FlatParameterShard ℕ ℕ)) × (map_result
        (λ rank. flatten_tensor_list_shard scalars sources (pos 2) (pos rank) 8)
        (range 0 2)
      ≡ ok shards)
    × (flat_map (λ s. s.shard.elems) shards ≡ padded_flat scalars 8 2 sources)
flatten_tensor_list_shard-padded_flat_example =
    flatten_tensor_list_shard-padded_flat scalars 8 1 2 sources (omega arith) sources-IsReady

gathered_shards :
    (shards : List (FlatParameterShard ℕ ℕ))
    → map_result
        (λ rank. flatten_tensor_list_shard scalars sources (pos 2) (pos rank) 8)
        (range 0 2)
      ≡ ok shards
    → collectives.all_gather local_shard.shard (4 ∷ 7 ∷ [])
      ≡ ok (flat_tensor scalars 8 0 (flat_map (λ s. s.shard.elems) shards))
unfolding make_shard shard_parts
gathered_shards shards h =
    let tiles =
      flatten_tensor_list_shard-padded_flat scalars 8 1 2 sources (omega arith) sources-IsReady in
    ap (λ xs. ok (flat_tensor scalars 8 0 xs))
      (sym padded
        ∙ sym tiles.2
        ∙ ap (flat_map (λ s. s.shard.elems)) (ok-injective (sym tiles.1 ∙ h)))

found_rank : rank_index_in_group 4 (4 ∷ 7 ∷ []) ≡ ok 0
unfolding rank_index_in_group rank_index_from
found_rank = refl

flattened : flatten_tensor_list_shard scalars sources (pos 2) (pos 0) 8 ≡ ok local_shard
unfolding flatten_tensor_list_shard validate_dp_rank check_tensors
flattened = refl

refilled :
    map (λ t. t.elems) (refill scalars 8 targets sources) ≡ (1 ∷ 2 ∷ 3 ∷ []) ∷ (0 ∷ 1 ∷ []) ∷ []
refilled = refl

all_gather_apply_flat_parameter_shard-refill_example :
    all_gather_apply_flat_parameter_shard scalars local_shard collectives (4 ∷ 7 ∷ []) targets
    ≡ ok (refill scalars 8 targets sources)
all_gather_apply_flat_parameter_shard-refill_example =
    all_gather_apply_flat_parameter_shard-refill scalars 8 collectives (4 ∷ 7 ∷ []) 1 0 0 targets
      sources local_shard sources-IsReady (refl, refl, refl, (refl, refl, refl, tt)) found_rank
      (omega arith) (omega arith) flattened gathered_shards

flat_tensor_range_padded-padded_flat_example :
    flat_tensor_range_padded scalars (λ t. t.contiguous) sources 5 6 2 4 8
    ≡ ok (take 4 (drop 2 (padded_flat scalars 8 2 sources)))
unfolding flat
flat_tensor_range_padded-padded_flat_example =
    flat_tensor_range_padded-padded_flat scalars (λ t. t.contiguous) 8 2 2 4 sources (λ t h. h)
      (refl, (refl, tt)) in_whole
  where
    in_whole : 2 + 4 ≤ padded_size (length (flat scalars 8 sources)) 2
    in_whole = unfold flat in omega arith

make_flat_shard_metadata-flatten_tensor_list_shard_example :
    (flat_shard : FlatParameterShard ℕ ℕ) × (flatten_tensor_list_shard scalars sources
        (pos 2)
        (pos 1)
        8
      ≡ ok flat_shard)
    × ((tensor_numels scalars sources >>= λ numels.
          make_flat_shard_metadata scalars numels (pos 2) (pos 1) flat_shard.shard)
        ≡ ok flat_shard)
make_flat_shard_metadata-flatten_tensor_list_shard_example =
    make_flat_shard_metadata-flatten_tensor_list_shard scalars 8 1 2 1 sources (omega arith)
      sources-IsReady

-- Four parameters over two ranks: the largest first, each to the rank with fewer bytes.
four_owners :
    greedy_parameter_owner_by_size (map pos (5 ∷ 9 ∷ 4 ∷ 3 ∷ [])) (pos 2) ≡ ok (1 ∷ 0 ∷ 1 ∷ 0 ∷ [])
unfolding greedy_parameter_owner_by_size has_negative sort_by_size insert_by_size least_loaded own
    own_all
four_owners = refl

at_most_nine : (i : ℕ) → i < 4 → at (5 ∷ 9 ∷ 4 ∷ 3 ∷ []) i ≤ 9
at_most_nine zero h = omega arith
at_most_nine (suc zero) h = omega arith
at_most_nine (suc (suc zero)) h = omega arith
at_most_nine (suc (suc (suc zero))) h = omega arith
at_most_nine (suc (suc (suc (suc i)))) h = absurd (omega arith)

greedy_parameter_owner_by_size-owned_parameter_indices_example :
    (owners : List ℕ) × (greedy_parameter_owner_by_size (map pos (5 ∷ 9 ∷ 4 ∷ 3 ∷ [])) (pos 2)
      ≡ ok owners)
    × (length owners ≡ 4)
    × ((i : ℕ) → at owners i < 2)
    × ((a b : ℕ)
        → a < 2
        → b < 2
        → (mine : List ℕ) × (theirs : List ℕ) × (owned_parameter_indices (map pos owners) (pos a)
            ≡ ok mine)
          × (owned_parameter_indices (map pos owners) (pos b) ≡ ok theirs)
          × (total (5 ∷ 9 ∷ 4 ∷ 3 ∷ []) mine ≤ total (5 ∷ 9 ∷ 4 ∷ 3 ∷ []) theirs + 9))
greedy_parameter_owner_by_size-owned_parameter_indices_example =
    greedy_parameter_owner_by_size-owned_parameter_indices (5 ∷ 9 ∷ 4 ∷ 3 ∷ []) 2 9 (omega arith)
      at_most_nine
