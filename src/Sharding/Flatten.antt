-- ===== src/Sharding/Flatten.antt =====
-- Flattening on every rank of a group.
use mathlib.Core.List.{flat_map}
use cverl.Base.{
  flat_map-map, ℕ, ◌+◌, ◌<◌, ◌≡◌, refl, ap, ◌∙◌, true, false, Option, none, some, List, [], ◌∷◌,
  ◌++◌, map, pos, ◌==◌, length, length-append, length-map, range, All, ok, map_result,
  map_result-range, ==_iff, leb_ℤ, ltb_ℤ, ◌||◌, arith,
}
use cverl.Sharding.Defs.{
  Scalars, Tensor, FlatParameterShard, validate_dp_rank, check_tensors, make_shard,
  flatten_tensor_list_shard,
}
use cverl.Sharding.Tiles.{flat, padded_flat, shards-padded_flat}

pub valid_rank :
    (dp rank : ℕ)
    → rank < dp
    → (leb_ℤ (pos dp) (pos 0) || (ltb_ℤ (pos rank) (pos 0) || leb_ℤ (pos dp) (pos rank))) ≡ false
valid_rank dp rank h = ground arith

module _ {Dtype A : Type 0} (scalars : Scalars Dtype A) (dtype : Dtype) where
  -- What the first loop asks of the tensors.
  abbrev pub IsReady : ℕ → Tensor Dtype A → Type 0
  IsReady device t = (t.defined ≡ true) × (t.contiguous ≡ true) × (t.device ≡ device)

  check_tensors-IsReady :
      (device n : ℕ) (tensors : List (Tensor Dtype A))
      → All (IsReady device) tensors
      → check_tensors scalars (some device) n tensors
        ≡ ok (n + length (flat scalars dtype tensors), some device)
  unfolding check_tensors flat
  check_tensors-IsReady device n [] h = ap (λ k. ok (k, some device)) (omega arith)
  check_tensors-IsReady device n (t ∷ tensors) h =
      let same : (t.device == device) ≡ true = (==_iff t.device device).1 h.0.2 in
      let whole : n + length t.elems + length (flat scalars dtype tensors)
          ≡ n + length (map (scalars.cast dtype) t.elems ++ flat scalars dtype tensors) =
        omega (
          arith,
          length-append (map (scalars.cast dtype) t.elems) (flat scalars dtype tensors),
          length-map (scalars.cast dtype) t.elems,
        ) in
      rw (h.0.0, h.0.1, same)
        (check_tensors-IsReady device (n + length t.elems) tensors h.1
          ∙ ap (λ k. ok (k, some device)) whole)

  -- The device of the first tensor, or the CPU.
  abbrev pub device_of : ℕ → List (Tensor Dtype A) → ℕ
  device_of device [] = 0
  device_of device (t ∷ tensors) = device

  check_tensors_first :
      (device : ℕ) (t : Tensor Dtype A) (tensors : List (Tensor Dtype A))
      → IsReady device t
      → check_tensors scalars none 0 (t ∷ tensors)
        ≡ check_tensors scalars (some device) 0 (t ∷ tensors)
  unfolding check_tensors
  check_tensors_first device t tensors h =
      let same : (t.device == device) ≡ true = (==_iff t.device device).1 h.2 in
      rw (h.0, h.1, same)
        (ap (λ d. check_tensors scalars (some d) (0 + length t.elems) tensors) h.2)

  check_tensors_ok :
      (device : ℕ) (tensors : List (Tensor Dtype A))
      → All (IsReady device) tensors
      → (found : Option ℕ) × (check_tensors scalars none 0 tensors
          ≡ ok (length (flat scalars dtype tensors), found))
        × ((elim found [ none ↦ 0 | some d ↦ d ]) ≡ device_of device tensors)
  check_tensors_ok device [] h = (none, unfold check_tensors flat in refl, refl)
  check_tensors_ok device (t ∷ tensors) h =
      let start : 0 + length (flat scalars dtype (t ∷ tensors))
          ≡ length (flat scalars dtype (t ∷ tensors)) =
        omega arith in
      (
        some device,
        check_tensors_first device t tensors h.0
            ∙ check_tensors-IsReady device 0 (t ∷ tensors) h
            ∙ ap (λ n. ok (n, some device)) start,
        refl,
      )

  pub flatten_tensor_list_shard-make_shard :
      (device dp rank : ℕ) (tensors : List (Tensor Dtype A))
      → rank < dp
      → All (IsReady device) tensors
      → flatten_tensor_list_shard scalars tensors (pos dp) (pos rank) dtype
        ≡ ok (
            make_shard scalars dtype
              (device_of device tensors)
              (length (flat scalars dtype tensors))
              dp
              rank
              tensors)
  unfolding flatten_tensor_list_shard validate_dp_rank
  flatten_tensor_list_shard-make_shard device dp rank tensors h ready =
      let checked = check_tensors_ok device tensors ready in
      rw (valid_rank dp rank h, checked.1)
        (ap
          (λ d.
            ok (make_shard scalars dtype d (length (flat scalars dtype tensors)) dp rank tensors))
          checked.2)

  -- Of contiguous tensors on one device, flattening succeeds on every rank of a group, and the shards
  -- of the ranks in order are the converted elements of the tensors in order, followed by the zeros
  -- that make their number a multiple of the size of the group.
  pub flatten_tensor_list_shard-padded_flat :
      (device dp : ℕ) (tensors : List (Tensor Dtype A))
      → 0 < dp
      → All (IsReady device) tensors
      → (shards : List (FlatParameterShard Dtype A)) × (map_result
            (λ rank. flatten_tensor_list_shard scalars tensors (pos dp) (pos rank) dtype)
            (range 0 dp)
          ≡ ok shards)
        × (flat_map (λ s. s.shard.elems) shards ≡ padded_flat scalars dtype dp tensors)
  flatten_tensor_list_shard-padded_flat device dp tensors h ready =
      let make = λ (rank : ℕ).
        make_shard scalars dtype (device_of device tensors) (length (flat scalars dtype tensors)) dp
          rank tensors in
      (
        map make (range 0 dp),
        map_result-range
            (λ rank. flatten_tensor_list_shard scalars tensors (pos dp) (pos rank) dtype) make 0 dp
            (λ rank a b.
              flatten_tensor_list_shard-make_shard device dp rank tensors (omega arith) ready),
        flat_map-map (λ s. s.shard.elems) make (range 0 dp)
            ∙ shards-padded_flat scalars dtype (device_of device tensors) dp tensors h,
      )
