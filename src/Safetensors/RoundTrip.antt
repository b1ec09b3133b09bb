-- ===== src/Safetensors/RoundTrip.antt =====
-- The tensors of a file that write_safetensors made are loaded as they were converted.
use mathlib.Core.List.{append-nil}
use cverl.Base.{
  suc, ◌+◌, ◌^◌, ◌<◌, ◌≡◌, refl, ap, ◌∙◌, true, false, List, [], ◌∷◌, ◌++◌, map, length,
  length-append, Bytes, All, All-of, ok, ◌==◌, arith,
}
use cverl.Transport.Codec.{le_bytes}
use cverl.Transport.Decoding.{length-le_bytes}
use cverl.Safetensors.Tensors.{ScalarType, Torch}
use cverl.Safetensors.Writer.{
  TensorEntry, target_scalar_type, build_header, file_of, write_safetensors,
}
use cverl.Safetensors.Loader.{
  Tensors, has_suffix, parse_safetensors_header, parse_header_text, scan_files, HfModelLoader,
  load_metadata, load_all_tensors,
}
use cverl.Safetensors.Config.{Directory, HfConfigSummary, parse_config}
use cverl.Safetensors.Header.{IsReadable, info_of, parse_header_text-unpadded}
use cverl.Safetensors.Padding.{build_header-unpadded, parse_safetensors_header-text}
use cverl.Safetensors.Lookup.{
  IsOther, scan_files-append, scan_files-others, open_file-append, parse_config-insert,
}
use cverl.Safetensors.Entries.{
  IsTorch, IsExported, IsName, target_scalar_type-IsExported, Distinct, entries_at,
  entries_from-entries_at, memory_of, memory-entries_at, entries_at-IsReadable,
}
use cverl.Safetensors.Load.{infos_at, all_load, load_loop-infos_at}

-- What a header is read as, in the file.
header_is_read :
    (filename : Bytes) (entry : TensorEntry) (entries : List TensorEntry) (bulk : Bytes)
    → length (build_header (entry ∷ entries)) < 2 ^ 63
    → All IsReadable (entry ∷ entries)
    → parse_safetensors_header
        (le_bytes 8 (length (build_header (entry ∷ entries)))
          ++ (build_header (entry ∷ entries) ++ bulk))
        filename
      ≡ ok (map (info_of filename) (entry ∷ entries))
header_is_read filename entry entries bulk small readable =
    let (spaces, padded) = build_header-unpadded (entry ∷ entries) in
    parse_safetensors_header-text filename (build_header (entry ∷ entries)) bulk small
    ∙ ap (parse_header_text filename) padded
    ∙ parse_header_text-unpadded filename entry entries spaces readable

scan_files-one :
    (before after : Directory) (filename file : Bytes) {infos : Tensors}
    → All IsOther before
    → All IsOther after
    → has_suffix filename ≡ true
    → parse_safetensors_header file filename ≡ ok infos
    → scan_files (before ++ ((filename, file) ∷ after)) ≡ ok infos
unfolding scan_files
scan_files-one before after filename file {infos = infos} h k suffixed parsed =
    scan_files-append before ((filename, file) ∷ after) h
    ∙ rw (suffixed, parsed, scan_files-others after k) (ap ok (append-nil infos))

load_metadata-one :
    (before after : Directory) (filename file : Bytes) {infos : Tensors} {config : HfConfigSummary}
    → All IsOther before
    → All IsOther after
    → has_suffix filename ≡ true
    → parse_config (before ++ after) ≡ ok config
    → parse_safetensors_header file filename ≡ ok infos
    → load_metadata (before ++ ((filename, file) ∷ after))
      ≡ ok (record { config = config; tensors = infos })
unfolding load_metadata
load_metadata-one before after filename file {infos = infos} h k suffixed configured parsed = rw (
  parse_config-insert before after filename file suffixed,
  configured,
  scan_files-one before after filename file h k suffixed parsed,
)

module _ {T : Type 0} (torch : Torch T) (good : IsTorch torch) where
  abbrev RoundTrip :
      ScalarType
      → HfConfigSummary
      → Directory
      → Directory
      → Bytes
      → List (Bytes × T)
      → Bytes
      → Type 0
  RoundTrip export_dtype config before after filename tensors dtype =
      (file : Bytes) × (write_safetensors torch tensors dtype ≡ ok file)
      × (loader : HfModelLoader) × (load_metadata (before ++ ((filename, file) ∷ after))
          ≡ ok loader)
      × (loader.config ≡ config)
      × (load_all_tensors torch (before ++ ((filename, file) ∷ after)) loader.tensors
          ≡ ok (map (λ kv. (kv.0, torch.converted export_dtype kv.1)) tensors))

  module _ (export_dtype : ScalarType) (dtype_name : Bytes)
      (exported : IsExported export_dtype dtype_name) where
    abbrev entries_of : List (Bytes × T) → List TensorEntry
    entries_of = entries_at torch export_dtype dtype_name exported good 0

    written :
        (dtype : Bytes) (kv : Bytes × T) (tensors : List (Bytes × T))
        → target_scalar_type dtype ≡ ok export_dtype
        → All (λ kv. torch.defined kv.1 ≡ true) (kv ∷ tensors)
        → write_safetensors torch (kv ∷ tensors) dtype
          ≡ ok (file_of torch (entries_of (kv ∷ tensors)))
    unfolding write_safetensors
    written dtype kv tensors target defined =
        let some : (suc (length tensors) == 0) ≡ false = ground arith in
        rw (
          some,
          target,
          entries_from-entries_at torch export_dtype dtype_name exported good 0 (kv ∷ tensors)
              defined,
        )

    read_back_all :
        (dtype filename : Bytes) (before after : Directory) (kv : Bytes × T)
        (tensors : List (Bytes × T)) {config : HfConfigSummary}
        → write_safetensors torch (kv ∷ tensors) dtype
          ≡ ok (file_of torch (entries_of (kv ∷ tensors)))
        → All IsName (kv ∷ tensors)
        → Distinct (kv ∷ tensors)
        → length (file_of torch (entries_of (kv ∷ tensors))) < 2 ^ 63
        → has_suffix filename ≡ true
        → All IsOther before
        → All IsOther after
        → parse_config (before ++ after) ≡ ok config
        → RoundTrip export_dtype config before after filename (kv ∷ tensors) dtype
    unfolding load_all_tensors entries_at
    read_back_all dtype filename before after kv tensors {config = config} write names distinct
          small suffixed others_before others_after configured =
        let header = build_header (entries_of (kv ∷ tensors)) in
        let bulk = memory_of torch export_dtype dtype_name exported good (kv ∷ tensors) in
        let file = file_of torch (entries_of (kv ∷ tensors)) in
        let files = before ++ ((filename, file) ∷ after) in
        let infos =
          infos_at torch export_dtype dtype_name exported good filename 0 (kv ∷ tensors) in
        let text : file ≡ le_bytes 8 (length header) ++ (header ++ bulk) =
          ap (λ d. le_bytes 8 (length header) ++ (header ++ d))
            (memory-entries_at torch export_dtype dtype_name exported good 0 (kv ∷ tensors)) in
        let size : length file ≡ 8 + (length header + length bulk) =
          ap length text
          ∙ length-append (le_bytes 8 (length header)) (header ++ bulk)
          ∙ rw (length-le_bytes 8 (length header), length-append header bulk) in
        let readable =
          entries_at-IsReadable torch export_dtype dtype_name exported good 0 (kv ∷ tensors) names
            (omega arith) in
        let metadata : load_metadata files ≡ ok (record { config = config; tensors = infos }) =
          load_metadata-one before after filename file others_before others_after suffixed
            configured (header_is_read filename _ _ _ (omega arith) readable) in
        let loads =
          all_load torch export_dtype dtype_name exported good files filename header infos [] []
            file 0 (kv ∷ tensors) refl refl text
            (open_file-append before after filename file others_before suffixed) distinct
            (omega arith) in
        (
          file,
          write,
          record { config = config; tensors = infos },
          metadata,
          refl,
          load_loop-infos_at torch export_dtype dtype_name exported good files filename header infos
              [] 0 (kv ∷ tensors) loads distinct
              (All-of (λ other. Unit {0}) (kv ∷ tensors) (λ other. tt)),
        )

  -- Where LibTorch keeps its promises: tensors that are all defined, at least one, under names that
  -- differ, hold no carriage return and are not the key of the metadata, are written for an export
  -- type that is known, if the file has less than 2^63 bytes; and from a directory that holds
  -- it as its only safetensors file, beside others of which parse_config gives a summary, they are
  -- loaded under their names, as they were converted, and the loader keeps that summary.
  pub load_all_tensors-write_safetensors :
      (dtype filename : Bytes) (before after : Directory) (tensors : List (Bytes × T))
      {export_dtype : ScalarType} {config : HfConfigSummary}
      → target_scalar_type dtype ≡ ok export_dtype
      → 0 < length tensors
      → All (λ kv. torch.defined kv.1 ≡ true) tensors
      → All IsName tensors
      → Distinct tensors
      → ((file : Bytes) → write_safetensors torch tensors dtype ≡ ok file → length file < 2 ^ 63)
      → has_suffix filename ≡ true
      → All IsOther before
      → All IsOther after
      → parse_config (before ++ after) ≡ ok config
      → (file : Bytes) × (write_safetensors torch tensors dtype ≡ ok file)
        × (loader : HfModelLoader) × (load_metadata (before ++ ((filename, file) ∷ after))
            ≡ ok loader)
        × (loader.config ≡ config)
        × (load_all_tensors torch (before ++ ((filename, file) ∷ after)) loader.tensors
            ≡ ok (map (λ kv. (kv.0, torch.converted export_dtype kv.1)) tensors))
  load_all_tensors-write_safetensors dtype filename before after [] target some defined names
        distinct small suffixed others_before others_after configured =
      absurd (omega arith)
  load_all_tensors-write_safetensors dtype filename before after (kv ∷ tensors)
        {export_dtype = export_dtype} target some defined names distinct small suffixed
        others_before others_after configured =
      let (dtype_name, exported) = target_scalar_type-IsExported dtype target in
      let write = written export_dtype dtype_name exported dtype kv tensors target defined in
      read_back_all export_dtype dtype_name exported dtype filename before after kv tensors write
        names distinct (small _ write) suffixed others_before others_after configured
