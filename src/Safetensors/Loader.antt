-- ===== src/Safetensors/Loader.antt =====
-- The functions of hf_model_loader.cc that read safetensors files. The files of a directory stand in
-- the order in which the iterator gives them. A header length that exceeds the file fails by a read
-- that is too short; that memory may be short before is not modelled.
use cverl.Base.{
  ℕ, zero, suc, ◌+◌, ◌-◌, ◌%◌, ◌^◌, Bool, true, false, not, ◌||◌, ◌&&◌, List, [], ◌∷◌, ◌++◌, Option,
  none, some, ℤ, pos, pos_part, ltb, leb, ltb_ℤ, ◌==◌, if◌then◌else◌, length, take, drop, Bytes,
  codes, bytes_equal, Result, ok, err, ◌>>=◌, ◌>>◌, throw_if, runtime_error,
}
use cverl.Transport.Codec.{from_le}
use cverl.Safetensors.Scanner.{JsonScanner, skip_ws, consume, expect, string, int_array, skip_value}
use cverl.Safetensors.Config.{Directory, HfConfigSummary, open_file, parse_config}
use cverl.Safetensors.Tensors.{
  ScalarType, k_float32, k_float16, k_bfloat16, k_int64, k_int32, k_uint8, CpuTensor, Torch,
}

pub record SafetensorInfo : Type 0 where
  pub name : Bytes
  pub filename : Bytes
  pub dtype : Bytes
  pub shape : List ℤ
  pub data_begin : ℕ
  pub data_end : ℕ

abbrev pub no_info : Bytes → Bytes → SafetensorInfo
no_info name filename = record {
  name = name;
  filename = filename;
  dtype = [];
  shape = [];
  data_begin = 0;
  data_end = 0;
}

abbrev pub set_offsets : List ℤ → SafetensorInfo → Result SafetensorInfo
set_offsets (first ∷ second ∷ []) info =
    if ltb_ℤ first (pos 0) || ltb_ℤ second first
    then err runtime_error
    else ok (record info { data_begin = pos_part first; data_end = pos_part second })
set_offsets offsets info = err runtime_error

-- A member of the object of a tensor, from behind the colon.
abbrev pub tensor_member :
    Bytes → JsonScanner → SafetensorInfo → Result (SafetensorInfo × JsonScanner)
tensor_member key text info =
    if bytes_equal key (codes "dtype")
    then (do r ← string text; ok (record info { dtype = r.0 }, r.1))
    else if bytes_equal key (codes "shape")
    then (do r ← int_array text; ok (record info { shape = r.0 }, r.1))
    else if bytes_equal key (codes "data_offsets")
    then (do r ← int_array text; info ← set_offsets r.0 info; ok (info, r.1))
    else (do s ← skip_value (length text) text; ok (info, s))

-- The loop over the members; each round takes a character or more.
unfoldable pub tensor_loop :
    ℕ → JsonScanner → SafetensorInfo → Result (SafetensorInfo × JsonScanner)
tensor_loop zero text info = err runtime_error
tensor_loop (suc fuel) text info = do
  key ← string text
  s ← expect b':' key.1
  r ← tensor_member key.0 s info
  let c = consume b'}' r.1
  elim c.0 [ true ↦ ok (r.0, c.1) | false ↦ do s ← expect b',' c.1; tensor_loop fuel s r.0 ]

unfoldable pub parse_tensor_object :
    JsonScanner → Bytes → Bytes → Result (SafetensorInfo × JsonScanner)
parse_tensor_object text name filename = do
  s ← expect b'{' text
  let c = consume b'}' (skip_ws s)
  elim c.0 [
    | true ↦ ok (no_info name filename, c.1)
    | false ↦ tensor_loop (length c.1) c.1 (no_info name filename)
  ]

-- What the loop over a header does with the value of a key.
abbrev pub header_member : Bytes → Bytes → JsonScanner → Result (List SafetensorInfo × JsonScanner)
header_member filename key text =
    if bytes_equal key (codes "__metadata__")
    then (do s ← skip_value (length text) text; ok ([], s))
    else (do r ← parse_tensor_object text key filename; ok (r.0 ∷ [], r.1))

unfoldable pub header_loop : ℕ → Bytes → JsonScanner → Result (List SafetensorInfo)
header_loop zero filename text = err runtime_error
header_loop (suc fuel) filename text = do
  key ← string text
  s ← expect b':' key.1
  r ← header_member filename key.0 s
  let c = consume b'}' r.1
  elim c.0 [
    | true ↦ ok r.0
    | false ↦ do s ← expect b',' c.1; tensors ← header_loop fuel filename s; ok (r.0 ++ tensors)
  ]

unfoldable pub read_u64_le : Bytes → Result ℕ
read_u64_le file = do throw_if (ltb (length file) 8) runtime_error; ok (from_le (take 8 file))

unfoldable pub parse_header_text : Bytes → JsonScanner → Result (List SafetensorInfo)
parse_header_text filename header = do
  s ← expect b'{' header
  let c = consume b'}' (skip_ws s)
  elim c.0 [ true ↦ ok [] | false ↦ header_loop (length c.1) filename c.1 ]

unfoldable pub parse_safetensors_header : Bytes → Bytes → Result (List SafetensorInfo)
parse_safetensors_header file filename = do
  header_len ← read_u64_le file
  throw_if (ltb (length (drop 8 file)) header_len) runtime_error
  parse_header_text filename (take header_len (drop 8 file))

unfoldable pub torch_dtype : Bytes → Result ScalarType
torch_dtype dtype =
    if bytes_equal dtype (codes "F32")
    then ok k_float32
    else if bytes_equal dtype (codes "F16")
    then ok k_float16
    else if bytes_equal dtype (codes "BF16")
    then ok k_bfloat16
    else if bytes_equal dtype (codes "I64")
    then ok k_int64
    else if bytes_equal dtype (codes "I32")
    then ok k_int32
    else if bytes_equal dtype (codes "U8")
    then ok k_uint8
    else err runtime_error

-- The tensors of the loader; `tensor_index_` gives the last position that has a name.
abbrev pub Tensors : Type 0
Tensors = List SafetensorInfo

abbrev pub suffix : Bytes
suffix = codes ".safetensors"

abbrev pub has_suffix : Bytes → Bool
has_suffix filename =
    leb (length suffix) (length filename)
    && bytes_equal (drop (length filename - length suffix) filename) suffix

-- The loop of load_metadata.
unfoldable pub scan_files : Directory → Result Tensors
scan_files [] = ok []
scan_files (entry ∷ files) =
    let rest = scan_files files in
    if has_suffix entry.0
    then (do
      tensors ← parse_safetensors_header entry.1 entry.0
      others ← rest
      ok (tensors ++ others))
    else rest

-- What a loader keeps of its directory.
pub record HfModelLoader : Type 0 where
  pub config : HfConfigSummary
  pub tensors : Tensors

unfoldable pub load_metadata : Directory → Result HfModelLoader
load_metadata files = do
  config ← parse_config files
  tensors ← scan_files files
  ok (record { config = config; tensors = tensors })

unfoldable pub find_tensor : Tensors → Bytes → Option SafetensorInfo
find_tensor [] name = none
find_tensor (info ∷ tensors) name = elim (find_tensor tensors name) [
  | some later ↦ some later
  | none ↦ if bytes_equal info.name name then some info else none
]

abbrev pub info_or_throw : Option SafetensorInfo → Result SafetensorInfo
info_or_throw none = err runtime_error
info_or_throw (some info) = ok info

unfoldable pub emplace_tensor :
    List (Bytes × CpuTensor) → Bytes → CpuTensor → List (Bytes × CpuTensor)
emplace_tensor [] name tensor = (name, tensor) ∷ []
emplace_tensor (kv ∷ out) name tensor =
    let rest = emplace_tensor out name tensor in
    if bytes_equal kv.0 name then kv ∷ out else kv ∷ rest

module _ {T : Type 0} (torch : Torch T) where
  unfoldable pub load_tensor : Directory → Tensors → Bytes → Result CpuTensor
  load_tensor files tensors name = do
    info ← info_or_throw (find_tensor tensors name)
    file ← open_file files info.filename
    header_len ← read_u64_le file
    let absolute_begin = (8 + header_len + info.data_begin) % 2 ^ 64
    let nbytes = info.data_end - info.data_begin
    throw_if (leb (2 ^ 63) absolute_begin) runtime_error
    dtype ← torch_dtype info.dtype
    tensor ← torch.empty info.shape dtype
    throw_if (not (length tensor.memory == nbytes)) runtime_error
    let rest = drop absolute_begin file
    throw_if (ltb (length rest) nbytes) runtime_error
    ok (record tensor { memory = take nbytes rest })

  -- `emplace` keeps the first tensor of a name.
  unfoldable pub load_loop :
      Directory → Tensors → List (Bytes × CpuTensor) → Tensors → Result (List (Bytes × CpuTensor))
  load_loop files tensors out [] = ok out
  load_loop files tensors out (info ∷ infos) = do
    tensor ← load_tensor files tensors info.name
    load_loop files tensors (emplace_tensor out info.name tensor) infos

  unfoldable pub load_all_tensors : Directory → Tensors → Result (List (Bytes × CpuTensor))
  load_all_tensors files tensors = load_loop files tensors [] tensors
