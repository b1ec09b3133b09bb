-- ===== src/Safetensors/Entries.antt =====
-- The entries that write_safetensors makes of its tensors, and that they can be read back.
use mathlib.Core.List.{flat_map}
use cverl.Base.{
  ℕ, ◌+◌, ◌<◌, ◌^◌, ◌≡◌, ◌≢◌, refl, ap, subst, ◌∙◌, inl, inr, Bool, true, false, List, [], ◌∷◌,
  ◌++◌, pos, map, length, length-append, if◌then◌else◌, Bytes, codes, bytes_equal, bytes_equal_iff,
  Bool-cases, All, ok, err, ok-injective, invalid_argument, arith,
}
use cverl.Safetensors.Scanner.{string_loop}
use cverl.Safetensors.Tensors.{ScalarType, k_float32, k_float16, k_bfloat16, CpuTensor, Torch}
use cverl.Safetensors.Writer.{TensorEntry, target_scalar_type, safetensors_dtype, entries_from}
use cverl.Safetensors.Loader.{torch_dtype}
use cverl.Safetensors.Strings.{IsNoReturn}
use cverl.Safetensors.Arrays.{IsInt64}
use cverl.Safetensors.Header.{IsReadable}

pub bytes_equal-false : {a b : Bytes} → a ≢ b → bytes_equal a b ≡ false
bytes_equal-false {a = a} {b = b} differ = elim (Bool-cases (bytes_equal a b)) [
  | inl same ↦ absurd (differ ((bytes_equal_iff a b).0 same))
  | inr other ↦ other
]

-- What LibTorch promises: a conversion has the type asked for and dimensions that fit in int64_t,
-- and `empty` makes a tensor of the dimensions and of the same size as any other of that type.
pub record IsTorch {T : Type 0} (torch : Torch T) : Type 0 where
  pub converted_type : (dtype : ScalarType) (t : T) → (torch.converted dtype t).scalar_type ≡ dtype
  pub converted_sizes : (dtype : ScalarType) (t : T) → All IsInt64 (torch.converted dtype t).sizes
  pub empty_alike :
      (dtype : ScalarType) (t : T)
      → (e : CpuTensor) × (torch.empty (map pos (torch.converted dtype t).sizes) dtype ≡ ok e)
        × (e.scalar_type ≡ dtype)
        × (e.sizes ≡ (torch.converted dtype t).sizes)
        × (length e.memory ≡ length (torch.converted dtype t).memory)

-- A type that the writer exports, its name in the file, and that the name is read back.
pub record IsExported (dtype : ScalarType) (name : Bytes) : Type 0 where
  pub named : safetensors_dtype dtype ≡ ok name
  pub read_back : torch_dtype name ≡ ok dtype
  pub plain : (rest : Bytes) → string_loop false (name ++ (b'"' ∷ rest)) ≡ ok (name, rest)

float32_IsExported : IsExported k_float32 (codes "F32")
unfolding torch_dtype string_loop bytes_equal
float32_IsExported = record { named = refl; read_back = refl; plain = λ rest. refl }

float16_IsExported : IsExported k_float16 (codes "F16")
unfolding torch_dtype string_loop bytes_equal
float16_IsExported = record { named = refl; read_back = refl; plain = λ rest. refl }

bfloat16_IsExported : IsExported k_bfloat16 (codes "BF16")
unfolding torch_dtype string_loop bytes_equal
bfloat16_IsExported = record { named = refl; read_back = refl; plain = λ rest. refl }

pub target_scalar_type-IsExported :
    (dtype : Bytes) {export_dtype : ScalarType}
    → target_scalar_type dtype ≡ ok export_dtype
    → (name : Bytes) × IsExported export_dtype name
unfolding target_scalar_type
target_scalar_type-IsExported dtype h = by_tests _ _ _ h
  where
    by_tests :
        (a b c : Bool) {t : ScalarType}
        → (if a
            then ok k_float32
            else if b
            then ok k_float16
            else if c
            then ok k_bfloat16
            else err invalid_argument)
          ≡ ok t
        → (name : Bytes) × IsExported t name
    by_tests true b c e =
        (codes "F32", subst (λ t. IsExported t (codes "F32")) (ok-injective e) float32_IsExported)
    by_tests false true c e =
        (codes "F16", subst (λ t. IsExported t (codes "F16")) (ok-injective e) float16_IsExported)
    by_tests false false true e = (
      codes "BF16",
      subst (λ t. IsExported t (codes "BF16")) (ok-injective e) bfloat16_IsExported,
    )
    by_tests false false false e = cc

-- A name that is not the key of the metadata and holds no carriage return.
abbrev pub IsName : {T : Type 0} → Bytes × T → Type 0
IsName kv = All IsNoReturn kv.0 × (kv.0 ≢ codes "__metadata__")

-- The names of the tensors are the keys of a map.
unfoldable pub Distinct : {T : Type 0} → List (Bytes × T) → Type 0
Distinct [] = Unit
Distinct (kv ∷ tensors) = All (λ other. kv.0 ≢ other.0) tensors × Distinct tensors

module _ {T : Type 0} (torch : Torch T) (export_dtype : ScalarType) (dtype_name : Bytes)
    (exported : IsExported export_dtype dtype_name) (good : IsTorch torch) where
  abbrev pub out_of : T → CpuTensor
  out_of t = torch.converted export_dtype t

  unfoldable pub entries_at : ℕ → List (Bytes × T) → List TensorEntry
  entries_at offset [] = []
  entries_at offset (kv ∷ tensors) =
      record {
        name = kv.0;
        tensor = out_of kv.1;
        dtype_name = dtype_name;
        data_begin = offset;
        data_end = offset + length (out_of kv.1).memory;
      }
      ∷ entries_at (offset + length (out_of kv.1).memory) tensors

  pub entries_from-entries_at :
      (offset : ℕ) (tensors : List (Bytes × T))
      → All (λ kv. torch.defined kv.1 ≡ true) tensors
      → entries_from torch export_dtype offset tensors ≡ ok (entries_at offset tensors)
  unfolding entries_from entries_at
  entries_from-entries_at offset [] h = refl
  entries_from-entries_at offset (kv ∷ tensors) h =
      let others = entries_from-entries_at (offset + length (out_of kv.1).memory) tensors h.1 in
      let named : safetensors_dtype (out_of kv.1).scalar_type ≡ ok dtype_name =
        ap safetensors_dtype (good.converted_type export_dtype kv.1) ∙ exported.named in
      rw (h.0, named, others)

  -- The bytes of the tensors, one tensor behind the other.
  abbrev pub memory_of : List (Bytes × T) → Bytes
  memory_of = flat_map (λ kv. (out_of kv.1).memory)

  pub memory-entries_at :
      (offset : ℕ) (tensors : List (Bytes × T))
      → flat_map (λ (e : TensorEntry). e.tensor.memory) (entries_at offset tensors)
        ≡ memory_of tensors
  unfolding flat_map entries_at
  memory-entries_at offset [] = refl
  memory-entries_at offset (kv ∷ tensors) =
      ap (◌++◌ (out_of kv.1).memory)
        (memory-entries_at (offset + length (out_of kv.1).memory) tensors)

  pub entries_at-IsReadable :
      (offset : ℕ) (tensors : List (Bytes × T))
      → All IsName tensors
      → offset + length (memory_of tensors) < 2 ^ 63
      → All IsReadable (entries_at offset tensors)
  unfolding flat_map entries_at
  entries_at-IsReadable offset [] h small = tt
  entries_at-IsReadable offset (kv ∷ tensors) h small =
      let parts = length-append (out_of kv.1).memory (memory_of tensors) in
      (
        record {
          no_return = h.0.0;
          no_metadata = bytes_equal-false h.0.1;
          plain = exported.plain;
          small_sizes = good.converted_sizes export_dtype kv.1;
          in_order = omega arith;
          small_end = omega arith;
        },
        entries_at-IsReadable (offset + length (out_of kv.1).memory) tensors h.1 (omega arith),
      )
