-- ===== src/Bpe/Table.antt =====
-- The table of byte_to_unicode, its inverse, and bytes_to_unicode_string.
use mathlib.Core.List.{flat_map}
use cverl.Base.{
  ℕ, ◌+◌, ◌≡◌, refl, Bool, true, false, Option, none, some, List, [], ◌∷◌, ◌++◌, map, ◌==◌,
  if◌then◌else◌, get_elem?, set, replicate, range, Bytes,
}
use cverl.Bpe.Utf8.{utf8_append}

-- A byte and its code point: what stands at one place of `bs` and `cs`.
abbrev pub Entry : Type 0
Entry = ℕ × ℕ

-- Both vectors behind the first three loops.
abbrev pub printable : List Entry
printable = map (λ b. (b, b)) (range 0x21 94 ++ range 0xA1 12 ++ range 0xAE 82)

abbrev pub mark_in_bs : List Bool → List Entry → List Bool
mark_in_bs in_bs [] = in_bs
mark_in_bs in_bs (entry ∷ entries) = mark_in_bs (set in_bs entry.0 true) entries

-- The loop over the bytes b, as many as `in_bs` has left, that gives the others the code points from
-- 256 + n on.
abbrev pub shifted : ℕ → ℕ → List Bool → List Entry
shifted b n [] = []
shifted b n (true ∷ in_bs) = shifted (b + 1) n in_bs
shifted b n (false ∷ in_bs) = (b, 256 + n) ∷ shifted (b + 1) (n + 1) in_bs

abbrev pub fill_table : List ℕ → List Entry → List ℕ
fill_table table [] = table
fill_table table (entry ∷ entries) = fill_table (set table entry.0 entry.1) entries

unfoldable pub build_byte_to_unicode_table : List ℕ
build_byte_to_unicode_table =
    fill_table (replicate 256 0)
      (printable ++ shifted 0 0 (mark_in_bs (replicate 256 false) printable))

-- `tbl[b]`; the index is a byte.
unfoldable pub byte_to_unicode : ℕ → ℕ
byte_to_unicode b = elim (get_elem? build_byte_to_unicode_table b) [ none ↦ 0 | some c ↦ c ]

-- The map `uc_to_byte` of the constructor of Impl: the last entry of a key counts.
abbrev pub uc_entries : List ℕ → List Entry → List Entry
uc_entries [] entries = entries
uc_entries (b ∷ bytes) entries = uc_entries bytes ((byte_to_unicode b, b) ∷ entries)

abbrev pub find_entry : ℕ → List Entry → Option ℕ
find_entry key [] = none
find_entry key (entry ∷ entries) =
    let rest = find_entry key entries in if entry.0 == key then some entry.1 else rest

unfoldable pub uc_to_byte : ℕ → Option ℕ
uc_to_byte cp = find_entry cp (uc_entries (range 0 256) [])

unfoldable pub bytes_to_unicode_string : Bytes → Bytes
bytes_to_unicode_string raw = flat_map (λ b. utf8_append (byte_to_unicode b)) raw

t1 : byte_to_unicode 32 ≡ 288
unfolding byte_to_unicode build_byte_to_unicode_table
t1 = refl

is_inverse : (ℕ → Bool)
is_inverse b = elim (uc_to_byte (byte_to_unicode b)) [ none ↦ false | some c ↦ c == b ]

tt1 : is_inverse 200 ≡ true
unfolding is_inverse uc_to_byte byte_to_unicode build_byte_to_unicode_table
tt1 = refl
