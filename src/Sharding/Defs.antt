-- ===== src/Sharding/Defs.antt =====
-- Flattening of a list of tensors into the shard of one rank, and the ways back. A tensor is what
-- these functions see of it: its flags, its dimension, its device and dtype, and its elements in
-- order. The scalars and their conversions are a parameter; numbers of elements and offsets are
-- natural, so that tests of their sign do not show; none exceeds an int64_t.
use cverl.Base.{
  ℕ, ◌+◌, ◌-◌, ◌*◌, ◌/◌, ◌%◌, min, max, Bool, true, false, not, ◌||◌, Option, none, some, List, [],
  ◌∷◌, ◌++◌, map, ℤ, pos, pos_part, ltb_ℤ, leb_ℤ, ltb, ◌==◌, if◌then◌else◌, length, take, drop,
  replicate, Result, ok, ◌>>=◌, ◌>>◌, throw_if, invalid_argument,
}

-- The scalar values of the tensor library.
pub record Scalars (Dtype A : Type 0) : Type 0 where
  pub zero_scalar : A
  pub cast : Dtype → A → A
  pub float32 : Dtype

pub record Tensor (Dtype A : Type 0) : Type 0 where
  pub defined : Bool
  pub contiguous : Bool
  pub dim : ℕ
  pub device : ℕ
  pub dtype : Dtype
  pub elems : List A

abbrev pub numel {ℓ} : {A : Type ℓ} → List A → ℕ
numel = length

pub record FlatParameterShardRange : Type 0 where
  pub parameter_index : ℕ
  pub parameter_offset : ℕ
  pub shard_offset : ℕ
  pub numel : ℕ

pub record FlatParameterShard (Dtype A : Type 0) : Type 0 where
  pub shard : Tensor Dtype A
  pub original_numel : ℕ
  pub padded_numel : ℕ
  pub shard_begin : ℕ
  pub shard_end : ℕ
  pub ranges : List FlatParameterShardRange

unfoldable pub validate_dp_rank : ℤ → ℤ → Result (Unit {0})
validate_dp_rank data_parallel data_rank =
    throw_if
      (leb_ℤ data_parallel (pos 0) || (ltb_ℤ data_rank (pos 0) || leb_ℤ data_parallel data_rank))
      invalid_argument

-- The padding to a multiple of the number of ranks, and what follows from it.
abbrev pub pad_numel : ℕ → ℕ → ℕ
pad_numel original_numel data_parallel =
    let remainder = original_numel % data_parallel in
    if remainder == 0 then 0 else data_parallel - remainder

abbrev pub padded_size : ℕ → ℕ → ℕ
padded_size original_numel data_parallel = original_numel + pad_numel original_numel data_parallel

abbrev pub shard_size : ℕ → ℕ → ℕ
shard_size original_numel data_parallel = padded_size original_numel data_parallel / data_parallel

-- The loop that fills `out.ranges`.
unfoldable pub shard_ranges : ℕ → ℕ → ℕ → ℕ → List ℕ → List FlatParameterShardRange
shard_ranges shard_begin shard_end i tensor_begin [] = []
shard_ranges shard_begin shard_end i tensor_begin (n ∷ numels) =
    let rest = shard_ranges shard_begin shard_end (i + 1) (tensor_begin + n) numels in
    let overlap_begin = max tensor_begin shard_begin in
    let overlap_end = min (tensor_begin + n) shard_end in
    if ltb overlap_begin overlap_end
    then record {
      parameter_index = i;
      parameter_offset = overlap_begin - tensor_begin;
      shard_offset = overlap_begin - shard_begin;
      numel = overlap_end - overlap_begin;
    }
      ∷ rest
    else rest

module _ {Dtype A : Type 0} (scalars : Scalars Dtype A) where
  -- The first loop: the number of elements, and the device of the first tensor.
  unfoldable pub check_tensors : Option ℕ → ℕ → List (Tensor Dtype A) → Result (ℕ × Option ℕ)
  check_tensors device original_numel [] = ok (original_numel, device)
  check_tensors device original_numel (t ∷ tensors) = do
    throw_if (not t.defined || not t.contiguous) invalid_argument
    throw_if (elim device [ none ↦ false | some d ↦ not (t.device == d) ]) invalid_argument
    check_tensors (elim device [ none ↦ some t.device | some d ↦ some d ])
        (original_numel + numel t.elems) tensors

  -- The parts of the tensors that overlap the shard, converted, one behind the other.
  unfoldable pub shard_parts : Dtype → ℕ → ℕ → ℕ → List (Tensor Dtype A) → List A
  shard_parts dtype shard_begin shard_end tensor_begin [] = []
  shard_parts dtype shard_begin shard_end tensor_begin (t ∷ tensors) =
      let rest = shard_parts dtype shard_begin shard_end (tensor_begin + numel t.elems) tensors in
      let overlap_begin = max tensor_begin shard_begin in
      let overlap_end = min (tensor_begin + numel t.elems) shard_end in
      if ltb overlap_begin overlap_end
      then map (scalars.cast dtype)
          (take (overlap_end - overlap_begin) (drop (overlap_begin - tensor_begin) t.elems))
        ++ rest
      else rest

  -- A new one-dimensional tensor.
  abbrev pub flat_tensor : Dtype → ℕ → List A → Tensor Dtype A
  flat_tensor dtype device elems = record {
    defined = true;
    contiguous = true;
    dim = 1;
    device = device;
    dtype = dtype;
    elems = elems;
  }

  -- The shard of a rank, behind the checks.
  unfoldable pub make_shard :
      Dtype → ℕ → ℕ → ℕ → ℕ → List (Tensor Dtype A) → FlatParameterShard Dtype A
  make_shard dtype device original_numel data_parallel data_rank tensors =
      let size = shard_size original_numel data_parallel in
      let shard_begin = data_rank * size in
      let shard_end = shard_begin + size in
      let valid_numel = min shard_end original_numel - min shard_begin original_numel in
      record {
        shard = flat_tensor dtype device (
            shard_parts dtype shard_begin shard_end 0 tensors
            ++ replicate (size - valid_numel) scalars.zero_scalar);
        original_numel = original_numel;
        padded_numel = padded_size original_numel data_parallel;
        shard_begin = shard_begin;
        shard_end = shard_end;
        ranges = shard_ranges shard_begin shard_end 0 0 (map (λ t. numel t.elems) tensors);
      }

  unfoldable pub flatten_tensor_list_shard :
      List (Tensor Dtype A) → ℤ → ℤ → Dtype → Result (FlatParameterShard Dtype A)
  flatten_tensor_list_shard tensors data_parallel data_rank dtype = do
    validate_dp_rank data_parallel data_rank
    checked ← check_tensors none 0 tensors
    let device : ℕ = elim checked.1 [ none ↦ 0 | some d ↦ d ]
    ok (make_shard dtype device checked.0 (pos_part data_parallel) (pos_part data_rank) tensors)
