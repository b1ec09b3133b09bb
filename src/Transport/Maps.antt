-- ===== src/Transport/Maps.antt =====
-- What the reader makes of the entries of a map: emplace puts each behind those before it.
use mathlib.Core.List.{append_assoc, append-nil}
use cverl.Base.{◌^◌, ◌<◌, ◌≡◌, refl, ap, sym, ◌∙◌, true, [], ◌∷◌, ◌++◌, length, All, Bytes, ◌>>=◌}
use cverl.Transport.Codec.{read_u32, read_string}
use cverl.Transport.Messages.{Map, bytes_lt, emplace, read_entries, read_map}
use cverl.Transport.Encoding.{string_bytes, each_bytes, list_bytes, entry_bytes}
use cverl.Transport.Decoding.{Reads, seq_read, read_size, read_string-Reads}

-- The keys of a std::map ascend strictly, and each entry fits the format.
abbrev pub IsMap : Map → Type 0
IsMap [] = Unit
IsMap ((k, v) ∷ m) = All (λ (e : Bytes × Bytes). bytes_lt k e.0 ≡ true) m × IsMap m

abbrev pub EntriesFit : Map → Type 0
EntriesFit = All (λ (e : Bytes × Bytes). (length e.0 < 2 ^ 32) × (length e.1 < 2 ^ 32))

emplace_last :
    (k v : Bytes) (m : Map)
    → All (λ (e : Bytes × Bytes). bytes_lt e.0 k ≡ true) m
    → emplace k v m ≡ m ++ ((k, v) ∷ [])
unfolding emplace
emplace_last k v [] h = refl
emplace_last k v ((j, w) ∷ m) h = rw (h.0, emplace_last k v m h.1)

-- Behind a map that ascends, every key before an entry is below the entry's key.
keys_below :
    (acc : Map) (k v : Bytes) (m : Map)
    → IsMap (acc ++ ((k, v) ∷ m))
    → All (λ (e : Bytes × Bytes). bytes_lt e.0 k ≡ true) acc
keys_below [] k v m h = tt
keys_below ((j, w) ∷ acc) k v m h = (at_entry acc h.0, keys_below acc k v m h.1)
  where
    at_entry :
        (acc : Map)
        → All (λ (e : Bytes × Bytes). bytes_lt j e.0 ≡ true) (acc ++ ((k, v) ∷ m))
        → bytes_lt j k ≡ true
    at_entry [] h = h.0
    at_entry (e ∷ acc) h = at_entry acc h.1

read_entries-Reads :
    (m acc : Map)
    → IsMap (acc ++ m)
    → EntriesFit m
    → Reads (read_entries (length m) acc) (each_bytes entry_bytes m) (acc ++ m)
unfolding read_entries
read_entries-Reads [] acc h fit rest = rw (append-nil acc)
read_entries-Reads ((k, v) ∷ m) acc h fit rest =
    ap (λ bs. read_entries (length ((k, v) ∷ m)) acc (bs ++ rest)) regroup
    ∙ seq_read read_string
        (λ x. read_string x.1 >>= λ y. read_entries (length m) (emplace x.0 y.0 acc) y.1)
        (string_bytes k) (string_bytes v ++ each_bytes entry_bytes m) k (acc ++ ((k, v) ∷ m))
        (read_string-Reads k fit.0.0)
        (seq_read read_string (λ y. read_entries (length m) (emplace k y.0 acc) y.1)
          (string_bytes v) (each_bytes entry_bytes m) v (acc ++ ((k, v) ∷ m))
          (read_string-Reads v fit.0.1)
          (others (read_entries-Reads m (acc ++ ((k, v) ∷ [])) (rw one_more h) fit.1)))
        rest
  where
    regroup :
        each_bytes entry_bytes ((k, v) ∷ m)
        ≡ string_bytes k ++ (string_bytes v ++ each_bytes entry_bytes m)
    regroup = append_assoc (string_bytes k) (string_bytes v) (each_bytes entry_bytes m)

    one_more : (acc ++ ((k, v) ∷ [])) ++ m ≡ acc ++ ((k, v) ∷ m)
    one_more = append_assoc acc ((k, v) ∷ []) m

    others :
        Reads
          (read_entries (length m) (acc ++ ((k, v) ∷ [])))
          (each_bytes entry_bytes m)
          ((acc ++ ((k, v) ∷ [])) ++ m)
        → Reads
            (read_entries (length m) (emplace k v acc))
            (each_bytes entry_bytes m)
            (acc ++ ((k, v) ∷ m))
    others h' = rw (emplace_last k v acc (keys_below acc k v m h), sym one_more) h'

pub read_map-Reads :
    (m : Map)
    → length m < 2 ^ 32
    → IsMap m
    → EntriesFit m
    → Reads read_map (list_bytes entry_bytes m) m
unfolding read_map
read_map-Reads m short h fit =
    seq_read read_u32 (λ n. read_entries n.0 [] n.1) _ (each_bytes entry_bytes m) (length m) m
      (read_size (length m) short) (read_entries-Reads m [] h fit)
