-- ===== src/Safetensors/Writer.antt =====
-- The functions of safetensors_writer.cc. A file is the list of its bytes. The directories that are
-- made and the failures of the stream are not modelled. `data_begin` and `data_end` do not wrap:
-- they count bytes that are in memory.
use mathlib.Core.List.{flat_map}
use cverl.Base.{
  ℕ, zero, suc, ◌+◌, ◌/◌, ◌%◌, Bool, true, false, not, ◌||◌, List, [], ◌∷◌, ◌++◌, ltb, ◌==◌,
  if◌then◌else◌, length, Bytes, codes, bytes_equal, Result, ok, err, ◌>>=◌, ◌>>◌, throw_if,
  invalid_argument,
}
use cverl.Transport.Codec.{le_bytes}
use cverl.Safetensors.Tensors.{
  ScalarType, k_float32, k_float16, k_bfloat16, k_int64, k_int32, k_uint8, k_other, CpuTensor,
  Torch,
}

pub record TensorEntry : Type 0 where
  pub name : Bytes
  pub tensor : CpuTensor
  pub dtype_name : Bytes
  pub data_begin : ℕ
  pub data_end : ℕ

abbrev pub escape_char : ℕ → Bytes
escape_char c =
    if c == b'"'
    then b'\\' ∷ b'"' ∷ []
    else if c == b'\\'
    then b'\\' ∷ b'\\' ∷ []
    else if c == 10
    then b'\\' ∷ b'n' ∷ []
    else if c == 13
    then b'\\' ∷ b'r' ∷ []
    else if c == 9
    then b'\\' ∷ b't' ∷ []
    else c ∷ []

unfoldable pub json_escape : Bytes → Bytes
json_escape [] = []
json_escape (c ∷ s) = escape_char c ++ json_escape s

abbrev is_one_of : Bytes → Bytes → Bytes → Bytes → Bool
is_one_of dtype a b c = bytes_equal dtype a || bytes_equal dtype b || bytes_equal dtype c

unfoldable pub target_scalar_type : Bytes → Result ScalarType
target_scalar_type dtype =
    if is_one_of dtype (codes "float32") (codes "f32") (codes "F32")
    then ok k_float32
    else if is_one_of dtype (codes "float16") (codes "f16") (codes "F16")
    then ok k_float16
    else if is_one_of dtype (codes "bfloat16") (codes "bf16") (codes "BF16")
    then ok k_bfloat16
    else err invalid_argument

abbrev pub safetensors_dtype : ScalarType → Result Bytes
safetensors_dtype k_float32 = ok (codes "F32")
safetensors_dtype k_float16 = ok (codes "F16")
safetensors_dtype k_bfloat16 = ok (codes "BF16")
safetensors_dtype k_int64 = ok (codes "I64")
safetensors_dtype k_int32 = ok (codes "I32")
safetensors_dtype k_uint8 = ok (codes "U8")
safetensors_dtype (k_other n) = err invalid_argument

-- The eight bytes, the lowest first.
abbrev pub write_u64_le : ℕ → Bytes
write_u64_le value = le_bytes 8 value

-- `oss << n`: a round for each digit, which the number bounds.
unfoldable pub decimal_loop : ℕ → ℕ → Bytes
decimal_loop zero n = []
decimal_loop (suc fuel) n = elim (ltb n 10) [
  | true ↦ (b'0' + n) ∷ []
  | false ↦ decimal_loop fuel (n / 10) ++ ((b'0' + n % 10) ∷ [])
]

abbrev pub decimal : ℕ → Bytes
decimal n = decimal_loop (suc n) n

-- The loop over the dimensions; the flag is set at the first.
unfoldable pub sizes_text : Bool → List ℕ → Bytes
sizes_text first [] = []
sizes_text first (n ∷ sizes) =
    (if first then [] else b',' ∷ []) ++ (decimal n ++ sizes_text false sizes)

abbrev pub entry_text : TensorEntry → Bytes
entry_text entry =
    codes ",\""
    ++ (json_escape entry.name
        ++ (codes "\":{\"dtype\":\""
            ++ (entry.dtype_name
                ++ (codes "\",\"shape\":["
                    ++ (sizes_text true entry.tensor.sizes
                        ++ (codes "],\"data_offsets\":["
                            ++ (decimal entry.data_begin
                                ++ (codes "," ++ (decimal entry.data_end ++ codes "]}")))))))))

-- The loop that pads with spaces; it ends within 7 rounds.
unfoldable pub pad_loop : ℕ → Bytes → Bytes
pad_loop zero header = header
pad_loop (suc fuel) header = elim ((8 + length header) % 8 == 0) [
  | true ↦ header
  | false ↦ pad_loop fuel (header ++ (b' ' ∷ []))
]

abbrev pub unpadded : List TensorEntry → Bytes
unpadded entries =
    codes "{\"__metadata__\":{\"format\":\"pt\"}" ++ (flat_map entry_text entries ++ codes "}")

unfoldable pub build_header : List TensorEntry → Bytes
build_header entries = pad_loop 7 (unpadded entries)

module _ {T : Type 0} (torch : Torch T) where
  -- The loop over the tensors, in the order of the map.
  unfoldable pub entries_from : ScalarType → ℕ → List (Bytes × T) → Result (List TensorEntry)
  entries_from export_dtype offset [] = ok []
  entries_from export_dtype offset (kv ∷ tensors) = do
    throw_if (not (torch.defined kv.1)) invalid_argument
    let tensor = torch.converted export_dtype kv.1
    dtype_name ← safetensors_dtype tensor.scalar_type
    let data_end = offset + length tensor.memory
    entries ← entries_from export_dtype data_end tensors
    ok (
        record {
          name = kv.0;
          tensor = tensor;
          dtype_name = dtype_name;
          data_begin = offset;
          data_end = data_end;
        }
        ∷ entries)

  abbrev pub file_of : List TensorEntry → Bytes
  file_of entries =
      let header = build_header entries in
      write_u64_le (length header)
      ++ (header ++ flat_map (λ (e : TensorEntry). e.tensor.memory) entries)

  -- The file that is written.
  unfoldable pub write_safetensors : List (Bytes × T) → Bytes → Result Bytes
  write_safetensors tensors dtype = do
    throw_if (length tensors == 0) invalid_argument
    export_dtype ← target_scalar_type dtype
    entries ← entries_from export_dtype 0 tensors
    ok (file_of entries)
