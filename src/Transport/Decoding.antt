-- ===== src/Transport/Decoding.antt =====
-- What the reader makes of the wire format: each piece is read back, with whatever follows it left.
use native.Mathlib.Nat.{pow-suc}
use mathlib.Core.List.{append_assoc}
use cverl.Base.{
  ℕ, zero, suc, ◌*◌, ◌/◌, ◌^◌, ◌<◌, ◌≡◌, refl, ap, sym, ◌∙◌, List, [], ◌∷◌, ◌++◌, length,
  length-append, take, drop, take_left, drop_left, All, Bytes, Result, ok, ◌>>=◌, arith,
}
use cverl.Transport.Codec.{
  le_bytes, from_le, read_word, pack, unpack, to_u32, Reader, read_bytes, read_u32, read_u64,
  read_f64, read_string, read_vec,
}
use cverl.Transport.Messages.{read_each, read_list}
use cverl.Transport.Encoding.{string_bytes, vec_bytes, each_bytes, list_bytes}

-- Reading these bytes gives this value and leaves what follows.
abbrev pub Reads {ℓ} : {A : Type ℓ} → (Reader → Result (A × Reader)) → Bytes → A → Type ℓ
Reads read bytes value = (rest : Bytes) → read (bytes ++ rest) ≡ ok (value, rest)

module _ {ℓ κ} {A : Type ℓ} {B : Type κ} where
  pub seq_read :
      (read : Reader → Result (A × Reader)) (next : A × Reader → Result (B × Reader)) (a b : Bytes)
      (value : A) (result : B)
      → Reads read a value
      → Reads (λ r. next (value, r)) b result
      → Reads (λ r. read r >>= next) (a ++ b) result
  seq_read read next a b value result h k rest = rw (append_assoc a b rest, h (b ++ rest)) (k rest)

  pub last_read :
      (read : Reader → Result (A × Reader)) (f : A → B) (a : Bytes) (value : A)
      → Reads read a value
      → Reads (λ r. read r >>= λ x. ok (f x.0, x.1)) a (f value)
  last_read read f a value h rest = rw (h rest)

pub length-le_bytes : (n v : ℕ) → length (le_bytes n v) ≡ n
unfolding le_bytes
length-le_bytes zero v = refl
length-le_bytes (suc n) v = ap suc (length-le_bytes n (v / 256))

pub from_le-le_bytes : (n v : ℕ) → v < 256 ^ n → from_le (le_bytes n v) ≡ v
unfolding from_le le_bytes
from_le-le_bytes zero v h = let e : 256 ^ 0 ≡ 1 = refl in omega (arith, rw e at h)
from_le-le_bytes (suc n) v h =
    let smaller : v / 256 < 256 ^ n = shrink v (256 ^ n) (rw (pow-suc 256 n) at h) in
    rw (from_le-le_bytes n (v / 256) smaller) (omega arith)
  where
    shrink : (v p : ℕ) → v < p * 256 → v / 256 < p
    shrink v p h = omega arith

read_bytes-Reads : (bytes : Bytes) → Reads (read_bytes (length bytes)) bytes bytes
unfolding read_bytes
read_bytes-Reads bytes rest =
    ground (arith, length-append bytes rest, take_left bytes rest, drop_left bytes rest)

read_word-Reads : (n v : ℕ) → v < 256 ^ n → Reads (read_word n) (le_bytes n v) v
read_word-Reads n v h rest =
    let whole : read_bytes n (le_bytes n v ++ rest) ≡ ok (le_bytes n v, rest) =
      ap (λ (k : ℕ). read_bytes k (le_bytes n v ++ rest)) (sym (length-le_bytes n v))
      ∙ read_bytes-Reads (le_bytes n v) rest in
    rw (whole, from_le-le_bytes n v h)

pub read_u32-Reads : (v : ℕ) → v < 2 ^ 32 → Reads read_u32 (le_bytes 4 v) v
unfolding read_u32
read_u32-Reads v h = read_word-Reads 4 v h

pub read_u64-Reads : (v : ℕ) → v < 2 ^ 64 → Reads read_u64 (le_bytes 8 v) v
unfolding read_u64
read_u64-Reads v h = read_word-Reads 8 v h

pub read_f64-Reads : (v : ℕ) → v < 2 ^ 64 → Reads read_f64 (le_bytes 8 v) v
unfolding read_f64
read_f64-Reads v h = read_word-Reads 8 v h

to_u32_small : (n : ℕ) → n < 2 ^ 32 → to_u32 n ≡ n
to_u32_small n h = omega arith

pub read_size : (n : ℕ) → n < 2 ^ 32 → Reads read_u32 (le_bytes 4 (to_u32 n)) n
read_size n h rest = rw (to_u32_small n h) (read_u32-Reads n h rest)

pub read_string-Reads : (s : Bytes) → length s < 2 ^ 32 → Reads read_string (string_bytes s) s
unfolding read_string
read_string-Reads s h =
    seq_read read_u32 (λ n. read_bytes n.0 n.1) _ s (length s) s (read_size (length s) h)
      (read_bytes-Reads s)

abbrev pub AllU32 : List ℕ → Type 0
AllU32 = All (λ v. v < 2 ^ 32)

length-pack : (v : List ℕ) → length (pack v) ≡ length v * 4
unfolding pack
length-pack [] = refl
length-pack (x ∷ v) =
    omega (arith, length-append (le_bytes 4 x) (pack v), length-le_bytes 4 x, length-pack v)

unpack-pack : (v : List ℕ) → AllU32 v → unpack (length v) (pack v) ≡ v
unfolding pack unpack
unpack-pack [] h = refl
unpack-pack (x ∷ v) h =
    let first : take 4 (le_bytes 4 x ++ pack v) ≡ le_bytes 4 x =
      ap (λ (k : ℕ). take k (le_bytes 4 x ++ pack v)) (sym (length-le_bytes 4 x))
      ∙ take_left (le_bytes 4 x) (pack v) in
    let others : drop 4 (le_bytes 4 x ++ pack v) ≡ pack v =
      ap (λ (k : ℕ). drop k (le_bytes 4 x ++ pack v)) (sym (length-le_bytes 4 x))
      ∙ drop_left (le_bytes 4 x) (pack v) in
    ap (λ (bs : Bytes). from_le bs ∷ unpack (length v) (drop 4 (le_bytes 4 x ++ pack v))) first
    ∙ ap (λ (bs : Bytes). from_le (le_bytes 4 x) ∷ unpack (length v) bs) others
    ∙ rw (from_le-le_bytes 4 x h.0, unpack-pack v h.1)

pub read_vec-Reads : (v : List ℕ) → length v < 2 ^ 32 → AllU32 v → Reads read_vec (vec_bytes v) v
unfolding read_vec
read_vec-Reads v h words =
    seq_read read_u32 (λ n. read_bytes (n.0 * 4) n.1 >>= λ x. ok (unpack n.0 x.0, x.1)) _ (pack v)
      (length v) v (read_size (length v) h) elements
  where
    elements :
        Reads (λ r. read_bytes (length v * 4) r >>= λ x. ok (unpack (length v) x.0, x.1)) (pack v) v
    elements rest =
        let whole : read_bytes (length v * 4) (pack v ++ rest) ≡ ok (pack v, rest) =
          ap (λ (k : ℕ). read_bytes k (pack v ++ rest)) (sym (length-pack v))
          ∙ read_bytes-Reads (pack v) rest in
        rw (whole, unpack-pack v words)

module _ {ℓ} {A : Type ℓ} (read : Reader → Result (A × Reader)) (bytes : A → Bytes) where
  read_each-Reads :
      (xs : List A)
      → All (λ x. Reads read (bytes x) x) xs
      → Reads (read_each read (length xs)) (each_bytes bytes xs) xs
  unfolding read_each
  read_each-Reads [] h rest = refl
  read_each-Reads (x ∷ xs) h rest =
      seq_read read (λ y. read_each read (length xs) y.1 >>= λ ys. ok (y.0 ∷ ys.0, ys.1)) (bytes x)
        (each_bytes bytes xs) x (x ∷ xs) h.0
        (last_read (read_each read (length xs)) (◌∷◌ x) (each_bytes bytes xs) xs
          (read_each-Reads xs h.1))
        rest

  pub read_list-Reads :
      (xs : List A)
      → length xs < 2 ^ 32
      → All (λ x. Reads read (bytes x) x) xs
      → Reads (read_list read) (list_bytes bytes xs) xs
  unfolding read_list
  read_list-Reads xs short h =
      seq_read read_u32 (λ n. read_each read n.0 n.1) _ (each_bytes bytes xs) (length xs) xs
        (read_size (length xs) short) (read_each-Reads xs h)

-- Elements that fit are read back each.
pub All-Reads {ℓ} :
    {A : Type ℓ} (P : A → Type 0) (read : Reader → Result (A × Reader)) (bytes : A → Bytes)
    → ((x : A) → P x → Reads read (bytes x) x)
    → (xs : List A) → All P xs
    → All (λ x. Reads read (bytes x) x) xs
All-Reads P read bytes h [] fit = tt
All-Reads P read bytes h (x ∷ xs) fit = (h x fit.0, All-Reads P read bytes h xs fit.1)
