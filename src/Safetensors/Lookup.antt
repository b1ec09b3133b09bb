-- ===== src/Safetensors/Lookup.antt =====
-- Lookups of tensors by their names and of files in a directory.
use cverl.Base.{
  if◌then◌else◌, codes, ◌≡◌, ◌≢◌, refl, ap, sym, ◌∙◌, true, false, List, [], ◌∷◌, ◌++◌, none, some,
  Bytes, bytes_equal, bytes_equal_iff, All, ok,
}
use cverl.Safetensors.Tensors.{CpuTensor}
use cverl.Safetensors.Config.{Directory, open_file, parse_config}
use cverl.Safetensors.Loader.{
  SafetensorInfo, Tensors, has_suffix, scan_files, find_tensor, emplace_tensor,
}
use cverl.Safetensors.Entries.{bytes_equal-false}

bytes_equal_self : (a : Bytes) → bytes_equal a a ≡ true
bytes_equal_self a = (bytes_equal_iff a a).1 refl

-- Lookups by name.
pub find_tensor-append :
    (front back : Tensors) (name : Bytes) {info : SafetensorInfo}
    → find_tensor back name ≡ some info
    → find_tensor (front ++ back) name ≡ some info
unfolding find_tensor
find_tensor-append [] back name h = h
find_tensor-append (other ∷ front) back name h = rw (find_tensor-append front back name h)

pub find_tensor-none :
    (infos : Tensors) (name : Bytes)
    → All (λ (info : SafetensorInfo). info.name ≢ name) infos
    → find_tensor infos name ≡ none
unfolding find_tensor
find_tensor-none [] name h = refl
find_tensor-none (info ∷ infos) name h = rw (find_tensor-none infos name h.1, bytes_equal-false h.0)

pub find_tensor-first :
    (info : SafetensorInfo) (infos : Tensors)
    → All (λ (other : SafetensorInfo). other.name ≢ info.name) infos
    → find_tensor (info ∷ infos) info.name ≡ some info
unfolding find_tensor
find_tensor-first info infos h = rw (find_tensor-none infos info.name h, bytes_equal_self info.name)

pub emplace_tensor-new :
    (out : List (Bytes × CpuTensor)) (name : Bytes) (tensor : CpuTensor)
    → All (λ kv. kv.0 ≢ name) out
    → emplace_tensor out name tensor ≡ out ++ ((name, tensor) ∷ [])
unfolding emplace_tensor
emplace_tensor-new [] name tensor h = refl
emplace_tensor-new (kv ∷ out) name tensor h =
    rw (bytes_equal-false h.0, emplace_tensor-new out name tensor h.1)

-- Files that are no safetensors files.
abbrev pub IsOther : Bytes × Bytes → Type 0
IsOther entry = has_suffix entry.0 ≡ false

pub scan_files-append :
    (front back : Directory) → All IsOther front → scan_files (front ++ back) ≡ scan_files back
unfolding scan_files
scan_files-append [] back h = refl
scan_files-append (entry ∷ front) back h = rw (h.0, scan_files-append front back h.1)

pub scan_files-others : (files : Directory) → All IsOther files → scan_files files ≡ ok []
unfolding scan_files
scan_files-others [] h = refl
scan_files-others (entry ∷ files) h = rw (h.0, scan_files-others files h.1)

pub open_file-append :
    (front back : Directory) (filename file : Bytes)
    → All IsOther front
    → has_suffix filename ≡ true
    → open_file (front ++ ((filename, file) ∷ back)) filename ≡ ok file
unfolding open_file
open_file-append [] back filename file h suffixed = rw (bytes_equal_self filename)
open_file-append (entry ∷ front) back filename file h suffixed =
    let differ : entry.0 ≢ filename = λ same. cc (sym h.0 ∙ ap has_suffix same ∙ suffixed) in
    rw (bytes_equal-false differ, open_file-append front back filename file h.1 suffixed)

-- A file of another name changes no lookup.
open_file-insert :
    (front back : Directory) (filename file name : Bytes)
    → bytes_equal filename name ≡ false
    → open_file (front ++ ((filename, file) ∷ back)) name ≡ open_file (front ++ back) name
unfolding open_file
open_file-insert [] back filename file name other = rw other
open_file-insert (entry ∷ front) back filename file name other =
    ap (λ rest. if bytes_equal entry.0 name then ok entry.1 else rest)
      (open_file-insert front back filename file name other)

pub parse_config-insert :
    (front back : Directory) (filename file : Bytes)
    → has_suffix filename ≡ true
    → parse_config (front ++ ((filename, file) ∷ back)) ≡ parse_config (front ++ back)
unfolding parse_config
parse_config-insert front back filename file suffixed =
    rw (open_file-insert front back filename file (codes "config.json") (bytes_equal-false differ))
  where
    differ : filename ≢ codes "config.json"
    differ same = cc (sym suffixed ∙ ap has_suffix same)
