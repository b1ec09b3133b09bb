-- ===== src/Safetensors/Place.antt =====
-- A tensor is loaded from its place in a file.
use mathlib.Core.List.{append_assoc}
use cverl.Base.{
  ℕ, ◌+◌, ◌-◌, ◌%◌, ◌^◌, ◌<◌, ◌≡◌, ap, sym, ◌∙◌, true, false, ◌++◌, pos, map, length, length-append,
  ltb, leb, ◌==◌, drop, take_left, drop_left, some, Bytes, ok, arith,
}
use native.Mathlib.Nat.{mod-eq_of_lt}
use cverl.Transport.Codec.{le_bytes}
use cverl.Transport.Decoding.{length-le_bytes}
use cverl.Safetensors.Tensors.{ScalarType, CpuTensor, Torch}
use cverl.Safetensors.Config.{Directory, open_file}
use cverl.Safetensors.Loader.{SafetensorInfo, Tensors, find_tensor, load_tensor}
use cverl.Safetensors.Padding.{read_u64_le-length}
use cverl.Safetensors.Entries.{IsTorch, IsExported}

drop_place :
    (word header before rest : Bytes)
    → drop (length word + length header + length before) (word ++ (header ++ (before ++ rest)))
      ≡ rest
drop_place word header before rest =
    let text : word ++ (header ++ (before ++ rest)) ≡ ((word ++ header) ++ before) ++ rest =
      sym (append_assoc word header (before ++ rest))
      ∙ sym (append_assoc (word ++ header) before rest) in
    let first = length-append word header in
    let size : length word + length header + length before ≡ length ((word ++ header) ++ before) =
      sym (length-append (word ++ header) before ∙ ap (λ n. n + length before) first) in
    ap (drop (length word + length header + length before)) text
    ∙ ap (λ n. drop n (((word ++ header) ++ before) ++ rest)) size
    ∙ drop_left ((word ++ header) ++ before) rest

module _ {T : Type 0} (torch : Torch T) (export_dtype : ScalarType) (dtype_name : Bytes)
    (exported : IsExported export_dtype dtype_name) (good : IsTorch torch) where
  read_into :
      (t : T) (e : CpuTensor)
      → e.scalar_type ≡ export_dtype
      → e.sizes ≡ (torch.converted export_dtype t).sizes
      → record e { memory = (torch.converted export_dtype t).memory }
        ≡ torch.converted export_dtype t
  read_into t e type sizes = rw (type ∙ sym (good.converted_type export_dtype t), sizes)

  -- What the loader keeps of a tensor at an offset.
  abbrev pub info_at : Bytes → Bytes × T → ℕ → SafetensorInfo
  info_at filename kv offset = record {
    name = kv.0;
    filename = filename;
    dtype = dtype_name;
    shape = map pos (torch.converted export_dtype kv.1).sizes;
    data_begin = offset;
    data_end = offset + length (torch.converted export_dtype kv.1).memory;
  }

  pub load_tensor-place :
      (files : Directory) (tensors : Tensors) (kv : Bytes × T)
      (filename header before after : Bytes)
      → find_tensor tensors kv.0 ≡ some (info_at filename kv (length before))
      → open_file files filename
        ≡ ok (
            le_bytes 8 (length header)
            ++ (header ++ (before ++ ((torch.converted export_dtype kv.1).memory ++ after))))
      → 8 + length header + length before + length (torch.converted export_dtype kv.1).memory
        < 2 ^ 63
      → load_tensor torch files tensors kv.0 ≡ ok (torch.converted export_dtype kv.1)
  unfolding load_tensor
  load_tensor-place files tensors kv filename header before after there opened small =
      let memory = (torch.converted export_dtype kv.1).memory in
      let word = le_bytes 8 (length header) in
      let (e, made, type, sizes, size) = good.empty_alike export_dtype kv.1 in
      let nowrap : (8 + length header + length before) % 2 ^ 64
          ≡ 8 + length header + length before =
        mod-eq_of_lt (omega arith) in
      let in_range : leb (2 ^ 63) (8 + length header + length before) ≡ false = ground arith in
      let nbytes : length before + length memory - length before ≡ length memory = omega arith in
      let same_size : (length e.memory == length memory) ≡ true = ground arith in
      let rest : drop (8 + length header + length before)
            (word ++ (header ++ (before ++ (memory ++ after))))
          ≡ memory ++ after =
        ap
          (λ n.
            drop (n + length header + length before)
              (word ++ (header ++ (before ++ (memory ++ after)))))
          (sym (length-le_bytes 8 (length header)))
        ∙ drop_place word header before (memory ++ after) in
      let all = length-append memory after in
      let enough : ltb (length (memory ++ after)) (length memory) ≡ false = ground arith in
      rw
        (
          there,
          opened,
          read_u64_le-length header (before ++ (memory ++ after)) (omega arith),
          nowrap,
          in_range,
          exported.read_back,
          made,
          nbytes,
          same_size,
          rest,
          enough,
          take_left memory after,
        )
        (ap ok (read_into kv.1 e type sizes))
