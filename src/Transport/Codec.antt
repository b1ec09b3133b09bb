-- ===== src/Transport/Codec.antt =====
-- The classes Writer and Reader. Words are little-endian, as on every target of the code; a float
-- or a signed integer is its bit pattern, since the code copies it by memcpy. A writer holds the
-- bytes of the buffer before its position, a reader those from its position to the size.
use cverl.Base.{
  ℕ, zero, suc, ◌+◌, ◌*◌, ◌/◌, ◌%◌, ◌^◌, List, [], ◌∷◌, ◌++◌, ltb, if◌then◌else◌, length, take,
  drop, Bytes, Result, ok, err, ◌>>=◌, runtime_error,
}

-- The bytes of a word, and the word of its bytes.
unfoldable pub le_bytes : ℕ → ℕ → Bytes
le_bytes zero v = []
le_bytes (suc n) v = (v % 256) ∷ le_bytes n (v / 256)

unfoldable pub from_le : Bytes → ℕ
from_le [] = 0
from_le (b ∷ bs) = b + 256 * from_le bs

pub record Writer : Type 0 where
  pub cap : ℕ
  pub written : Bytes

-- `ensure` and the copy.
unfoldable pub write_bytes : Bytes → Writer → Result Writer
write_bytes bytes w =
    if ltb w.cap (length w.written + length bytes)
    then err runtime_error
    else ok (record w { written = w.written ++ bytes })

abbrev pub write_u32 : ℕ → Writer → Result Writer
write_u32 v = write_bytes (le_bytes 4 v)

abbrev pub write_u64 : ℕ → Writer → Result Writer
write_u64 v = write_bytes (le_bytes 8 v)

abbrev pub write_f64 : ℕ → Writer → Result Writer
write_f64 bits = write_bytes (le_bytes 8 bits)

-- `static_cast<uint32_t>` of a size.
abbrev pub to_u32 : ℕ → ℕ
to_u32 n = n % 2 ^ 32

unfoldable pub write_string : Bytes → Writer → Result Writer
write_string s w = do w ← write_u32 (to_u32 (length s)) w; write_bytes s w

-- The memory of a vector of 4-byte elements.
unfoldable pub pack : List ℕ → Bytes
pack [] = []
pack (v ∷ vs) = le_bytes 4 v ++ pack vs

-- `write_vec_i32` and `write_vec_f32` copy the same way.
unfoldable pub write_vec : List ℕ → Writer → Result Writer
write_vec v w = do w ← write_u32 (to_u32 (length v)) w; write_bytes (pack v) w

abbrev pub Reader : Type 0
Reader = Bytes

unfoldable pub read_bytes : ℕ → Reader → Result (Bytes × Reader)
read_bytes n r = if ltb (length r) n then err runtime_error else ok (take n r, drop n r)

abbrev pub read_word : ℕ → Reader → Result (ℕ × Reader)
read_word n r = do x ← read_bytes n r; ok (from_le x.0, x.1)

unfoldable pub read_u32 : Reader → Result (ℕ × Reader)
read_u32 = read_word 4

unfoldable pub read_u64 : Reader → Result (ℕ × Reader)
read_u64 = read_word 8

unfoldable pub read_f64 : Reader → Result (ℕ × Reader)
read_f64 = read_word 8

unfoldable pub read_string : Reader → Result (Bytes × Reader)
read_string r = do n ← read_u32 r; read_bytes n.0 n.1

unfoldable pub unpack : ℕ → Bytes → List ℕ
unpack zero bytes = []
unpack (suc n) bytes = from_le (take 4 bytes) ∷ unpack n (drop 4 bytes)

unfoldable pub read_vec : Reader → Result (List ℕ × Reader)
read_vec r = do n ← read_u32 r; x ← read_bytes (n.0 * 4) n.1; ok (unpack n.0 x.0, x.1)
