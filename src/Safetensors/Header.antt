-- ===== src/Safetensors/Header.antt =====
-- The header that build_header writes is read back by parse_header_text.
use mathlib.Core.List.{append_assoc, append-nil, flat_map}
use cverl.Base.{
  ℕ, zero, suc, ◌≤◌, ◌<◌, ◌≡◌, refl, ap, ◌∙◌, true, false, List, [], ◌∷◌, ◌++◌, map, pos, ltb_ℤ,
  length, length-append, drop, Bytes, codes, bytes_equal, All, Result, ok, ◌>>=◌, arith,
}
use cverl.Safetensors.Scanner.{
  JsonScanner, skip_ws, consume, expect, string_loop, string, skip_value,
}
use cverl.Safetensors.Writer.{TensorEntry, json_escape, sizes_text, entry_text, unpadded}
use cverl.Safetensors.Loader.{
  SafetensorInfo, no_info, set_offsets, tensor_loop, parse_tensor_object, header_loop,
  parse_header_text,
}
use cverl.Safetensors.Strings.{IsNoReturn, string_loop-json_escape}
use cverl.Safetensors.Arrays.{IsInt64, int_array-sizes_text}

-- What the loader keeps of an entry.
abbrev pub info_of : Bytes → TensorEntry → SafetensorInfo
info_of filename entry = record {
  name = entry.name;
  filename = filename;
  dtype = entry.dtype_name;
  shape = map pos entry.tensor.sizes;
  data_begin = entry.data_begin;
  data_end = entry.data_end;
}

-- An entry whose name and numbers can be read back.
pub record IsReadable (entry : TensorEntry) : Type 0 where
  pub no_return : All IsNoReturn entry.name
  pub no_metadata : bytes_equal entry.name (codes "__metadata__") ≡ false
  pub plain :
      (rest : Bytes)
      → string_loop false (entry.dtype_name ++ (b'"' ∷ rest)) ≡ ok (entry.dtype_name, rest)
  pub small_sizes : All IsInt64 entry.tensor.sizes
  pub in_order : entry.data_begin ≤ entry.data_end
  pub small_end : IsInt64 entry.data_end

-- The text of an entry behind its name, and what follows the entry.
abbrev object_text : TensorEntry → Bytes → Bytes
object_text entry rest =
    codes "{\"dtype\":\""
    ++ (entry.dtype_name
        ++ (codes "\",\"shape\":["
            ++ (sizes_text true entry.tensor.sizes
                ++ (codes "],\"data_offsets\":["
                    ++ (sizes_text true (entry.data_begin ∷ entry.data_end ∷ [])
                        ++ (codes "]}" ++ rest))))))

abbrev named_text : TensorEntry → Bytes → Bytes
named_text entry rest = b'"' ∷ (json_escape entry.name ++ (codes "\":" ++ object_text entry rest))

entry_text-named_text :
    (entry : TensorEntry) (rest : Bytes) → entry_text entry ++ rest ≡ b',' ∷ named_text entry rest
unfolding sizes_text
entry_text-named_text entry rest = simp (append_assoc, append-nil) refl

set_offsets_lem :
    (begin end : ℕ) (info : SafetensorInfo)
    → begin ≤ end
    → set_offsets (pos begin ∷ pos end ∷ []) info
      ≡ ok (record info { data_begin = begin; data_end = end })
set_offsets_lem begin end info le =
    let fine : ltb_ℤ (pos end) (pos begin) ≡ false = ground arith in
    let sign : ltb_ℤ (pos begin) (pos 0) ≡ false = ground arith in rw (fine, sign)

tensor_loop-object_text :
    (filename : Bytes) (entry : TensorEntry) (rest : Bytes) (fuel : ℕ)
    → IsReadable entry
    → tensor_loop
        (suc (suc (suc fuel)))
        (drop 1 (object_text entry rest))
        (no_info entry.name filename)
      ≡ ok (info_of filename entry, rest)
unfolding tensor_loop string string_loop skip_ws expect consume bytes_equal
tensor_loop-object_text filename entry rest fuel readable =
    let behind = codes "]}" ++ rest in
    let offsets =
      codes "],\"data_offsets\":["
      ++ (sizes_text true (entry.data_begin ∷ entry.data_end ∷ []) ++ behind) in
    let le = readable.in_order in
    let small = readable.small_end in
    rw (
      readable.plain (codes ",\"shape\":[" ++ (sizes_text true entry.tensor.sizes ++ offsets)),
      int_array-sizes_text entry.tensor.sizes (drop 1 offsets) readable.small_sizes,
      int_array-sizes_text (entry.data_begin ∷ entry.data_end ∷ []) (drop 1 behind)
          (omega arith, (small, tt)),
      set_offsets_lem entry.data_begin entry.data_end
          (record (info_of filename entry) { data_begin = 0; data_end = 0 }) le,
    )

parse_tensor_object-object_text :
    (filename : Bytes) (entry : TensorEntry) (rest : Bytes)
    → IsReadable entry
    → parse_tensor_object (object_text entry rest) entry.name filename
      ≡ ok (info_of filename entry, rest)
unfolding parse_tensor_object skip_ws expect consume
parse_tensor_object-object_text filename entry rest readable =
    tensor_loop-object_text filename entry rest _ readable

-- What the loop does behind the value of a key.
abbrev header_next : ℕ → Bytes → List SafetensorInfo → JsonScanner → Result (List SafetensorInfo)
header_next fuel filename found text =
    let c = consume b'}' text in
    elim c.0 [
      | true ↦ ok found
      | false ↦ do s ← expect b',' c.1; tensors ← header_loop fuel filename s; ok (found ++ tensors)
    ]

header_loop-named_text :
    (fuel : ℕ) (filename : Bytes) (entry : TensorEntry) (rest : Bytes)
    → IsReadable entry
    → header_loop (suc fuel) filename (named_text entry rest)
      ≡ header_next fuel filename (info_of filename entry ∷ []) rest
unfolding header_loop string skip_ws expect consume
header_loop-named_text fuel filename entry rest readable = rw (
  string_loop-json_escape entry.name (codes ":" ++ object_text entry rest) readable.no_return,
  readable.no_metadata,
  parse_tensor_object-object_text filename entry rest readable,
)

header_loop-entries :
    (fuel : ℕ) (filename : Bytes) (entry : TensorEntry) (entries : List TensorEntry) (rest : Bytes)
    → length entries < fuel
    → All IsReadable (entry ∷ entries)
    → header_loop fuel filename (named_text entry (flat_map entry_text entries ++ (b'}' ∷ rest)))
      ≡ ok (map (info_of filename) (entry ∷ entries))
unfolding flat_map expect consume skip_ws
header_loop-entries zero filename entry entries rest enough h = absurd (omega arith)
header_loop-entries (suc fuel) filename entry [] rest enough h =
    header_loop-named_text fuel filename entry (b'}' ∷ rest) h.0
header_loop-entries (suc fuel) filename entry (next ∷ entries) rest enough h =
    let behind = flat_map entry_text entries ++ (b'}' ∷ rest) in
    let text : flat_map entry_text (next ∷ entries) ++ (b'}' ∷ rest)
        ≡ b',' ∷ named_text next behind =
      append_assoc (entry_text next) (flat_map entry_text entries) (b'}' ∷ rest)
      ∙ entry_text-named_text next behind in
    let others = header_loop-entries fuel filename next entries rest (omega arith) h.1 in
    header_loop-named_text fuel filename entry
      (flat_map entry_text (next ∷ entries) ++ (b'}' ∷ rest)) h.0
    ∙ ap (header_next fuel filename (info_of filename entry ∷ [])) text
    ∙ ap (λ r. do ts ← r; ok (info_of filename entry ∷ ts)) others

length-entries :
    (entries : List TensorEntry) (rest : Bytes)
    → length entries ≤ length (flat_map entry_text entries ++ rest)
unfolding flat_map
length-entries [] rest = omega arith
length-entries (entry ∷ entries) rest =
    let others = length-entries entries rest in
    let text = ap length (append_assoc (entry_text entry) (flat_map entry_text entries) rest) in
    let parts = length-append (entry_text entry) (flat_map entry_text entries ++ rest) in
    omega arith

header_loop-metadata :
    (fuel : ℕ) (filename : Bytes) (rest : Bytes)
    → header_loop (suc fuel) filename (codes "\"__metadata__\":{\"format\":\"pt\"}" ++ rest)
      ≡ header_next fuel filename [] rest
unfolding header_loop string string_loop skip_value skip_ws expect consume bytes_equal
header_loop-metadata fuel filename rest = refl

header_next-entries :
    (fuel : ℕ) (filename : Bytes) (entry : TensorEntry) (entries : List TensorEntry) (rest : Bytes)
    → length entries < fuel
    → All IsReadable (entry ∷ entries)
    → header_next fuel filename [] (flat_map entry_text (entry ∷ entries) ++ (b'}' ∷ rest))
      ≡ ok (map (info_of filename) (entry ∷ entries))
unfolding flat_map expect consume skip_ws
header_next-entries fuel filename entry entries rest enough h =
    let behind = flat_map entry_text entries ++ (b'}' ∷ rest) in
    let text =
      append_assoc (entry_text entry) (flat_map entry_text entries) (b'}' ∷ rest)
      ∙ entry_text-named_text entry behind in
    ap (header_next fuel filename []) text
    ∙ ap (λ r. do ts ← r; ok ts) (header_loop-entries fuel filename entry entries rest enough h)

-- The unpadded header, whatever follows it, is read as the entries that it was made of.
pub parse_header_text-unpadded :
    (filename : Bytes) (entry : TensorEntry) (entries : List TensorEntry) (rest : Bytes)
    → All IsReadable (entry ∷ entries)
    → parse_header_text filename (unpadded (entry ∷ entries) ++ rest)
      ≡ ok (map (info_of filename) (entry ∷ entries))
unfolding parse_header_text skip_ws expect consume
parse_header_text-unpadded filename entry entries rest h =
    let behind = flat_map entry_text (entry ∷ entries) ++ (b'}' ∷ rest) in
    let count = length-entries (entry ∷ entries) (b'}' ∷ rest) in
    ap (λ text. parse_header_text filename (codes "{\"__metadata__\":{\"format\":\"pt\"}" ++ text))
      (append_assoc (flat_map entry_text (entry ∷ entries)) (codes "}") rest)
    ∙ header_loop-metadata _ filename behind
    ∙ header_next-entries _ filename entry entries rest (omega arith) h
