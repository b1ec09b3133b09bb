-- ===== src/Safetensors/Load.antt =====
-- All the tensors of one file are loaded, each from its place.
use mathlib.Core.List.{flat_map, append_assoc, append-nil}
use cverl.Base.{
  ℕ, ◌+◌, ◌^◌, ◌<◌, ◌≡◌, ◌≢◌, ap, sym, ◌∙◌, List, [], ◌∷◌, ◌++◌, map, length, length-append, some,
  Bytes, All, All-append, ok, arith,
}
use cverl.Transport.Codec.{le_bytes}
use cverl.Safetensors.Tensors.{ScalarType, CpuTensor, Torch}
use cverl.Safetensors.Config.{Directory, open_file}
use cverl.Safetensors.Loader.{SafetensorInfo, Tensors, find_tensor, load_tensor, load_loop}
use cverl.Safetensors.Header.{info_of}
use cverl.Safetensors.Lookup.{find_tensor-append, find_tensor-first, emplace_tensor-new}
use cverl.Safetensors.Entries.{IsTorch, IsExported, Distinct, entries_at, memory_of}
use cverl.Safetensors.Place.{info_at, load_tensor-place}

module _ {T : Type 0} (torch : Torch T) (export_dtype : ScalarType) (dtype_name : Bytes)
    (exported : IsExported export_dtype dtype_name) (good : IsTorch torch) where
  abbrev pub infos_at : Bytes → ℕ → List (Bytes × T) → Tensors
  infos_at filename offset tensors =
      map (info_of filename) (entries_at torch export_dtype dtype_name exported good offset tensors)

  -- A tensor under its name, as it was converted.
  abbrev pub loaded : Bytes × T → Bytes × CpuTensor
  loaded kv = (kv.0, torch.converted export_dtype kv.1)

  abbrev memories : List (Bytes × T) → Bytes
  memories = memory_of torch export_dtype dtype_name exported good

  names_differ :
      (filename name : Bytes) (offset : ℕ) (tensors : List (Bytes × T))
      → All (λ other. name ≢ other.0) tensors
      → All (λ (info : SafetensorInfo). info.name ≢ name) (infos_at filename offset tensors)
  unfolding entries_at
  names_differ filename name offset [] h = tt
  names_differ filename name offset (kv ∷ tensors) h = (
    λ same. h.0 (sym same),
    names_differ filename name (offset + length (torch.converted export_dtype kv.1).memory) tensors
        h.1,
  )

  module _ (files : Directory) (filename header : Bytes) where
    abbrev file_with : Bytes → Bytes → Bytes
    file_with before after = le_bytes 8 (length header) ++ (header ++ (before ++ after))

    pub all_load :
        (whole front : Tensors) (before file : Bytes) (offset : ℕ) (tensors : List (Bytes × T))
        → offset ≡ length before
        → whole ≡ front ++ infos_at filename offset tensors
        → file ≡ file_with before (memories tensors)
        → open_file files filename ≡ ok file
        → Distinct tensors
        → 8 + length header + length before + length (memories tensors) < 2 ^ 63
        → All
            (λ kv. load_tensor torch files whole kv.0 ≡ ok (torch.converted export_dtype kv.1))
            tensors
    unfolding entries_at flat_map Distinct
    all_load whole front before file offset [] at infos text opened distinct small = tt
    all_load whole front before file offset (kv ∷ tensors) at infos text opened distinct small =
        let memory = (torch.converted export_dtype kv.1).memory in
        let here = info_at torch export_dtype dtype_name exported good filename kv offset in
        let later = infos_at filename (offset + length memory) tensors in
        let parts = length-append memory (memories tensors) in
        let longer = length-append before memory in
        let found_here : find_tensor whole kv.0 ≡ some here =
          ap (λ w. find_tensor w kv.0) infos
          ∙ find_tensor-append front (here ∷ later) kv.0 (
              find_tensor-first here later
                (names_differ filename kv.0 (offset + length memory) tensors distinct.0)) in
        (
          load_tensor-place torch export_dtype dtype_name exported good files whole kv filename
              header before (memories tensors)
              (found_here
                ∙ ap (λ n. some (info_at torch export_dtype dtype_name exported good filename kv n))
                    at)
              (opened ∙ ap ok text) (omega arith),
          all_load whole (front ++ (here ∷ [])) (before ++ memory) file (offset + length memory)
              tensors (omega arith) (infos ∙ sym (append_assoc front (here ∷ []) later))
              (text
                ∙ ap (λ s. le_bytes 8 (length header) ++ (header ++ s))
                    (sym (append_assoc before memory (memories tensors))))
              opened distinct.1 (omega arith),
        )

    -- What is in the map has other names than what comes.
    abbrev AllNew : List (Bytes × CpuTensor) → List (Bytes × T) → Type 0
    AllNew out = All (λ kv. All (λ o. o.0 ≢ kv.0) out)

    AllNew-loaded :
        (out : List (Bytes × CpuTensor)) (kv : Bytes × T) (tensors : List (Bytes × T))
        → AllNew out tensors
        → All (λ other. kv.0 ≢ other.0) tensors
        → AllNew (out ++ (loaded kv ∷ [])) tensors
    AllNew-loaded out kv [] h k = tt
    AllNew-loaded out kv (other ∷ tensors) h k = (
      All-append (λ o. o.0 ≢ other.0) out (loaded kv ∷ []) h.0 (k.0, tt),
      AllNew-loaded out kv tensors h.1 k.1,
    )

    pub load_loop-infos_at :
        (whole : Tensors) (out : List (Bytes × CpuTensor)) (offset : ℕ) (tensors : List (Bytes × T))
        → All
            (λ kv. load_tensor torch files whole kv.0 ≡ ok (torch.converted export_dtype kv.1))
            tensors
        → Distinct tensors
        → AllNew out tensors
        → load_loop torch files whole out (infos_at filename offset tensors)
          ≡ ok (out ++ map loaded tensors)
    unfolding load_loop entries_at Distinct
    load_loop-infos_at whole out offset [] loads distinct new = ap ok (sym (append-nil out))
    load_loop-infos_at whole out offset (kv ∷ tensors) loads distinct new =
        let rest =
          load_loop-infos_at whole (out ++ (loaded kv ∷ []))
            (offset + length (torch.converted export_dtype kv.1).memory) tensors loads.1 distinct.1
            (AllNew-loaded out kv tensors new.1 distinct.0) in
        rw (loads.0, emplace_tensor-new out kv.0 (torch.converted export_dtype kv.1) new.0, rest)
          (ap ok (append_assoc out (loaded kv ∷ []) (map loaded tensors)))
