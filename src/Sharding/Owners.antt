-- ===== src/Sharding/Owners.antt =====
-- greedy_parameter_owner_by_size and owned_parameter_indices. `std::stable_sort` is insertion sort;
-- every stable sort gives the same order. Bytes are natural behind the test of their sign.
use cverl.Base.{
  ℕ, zero, suc, ◌+◌, ◌-◌, Bool, false, ◌||◌, List, [], ◌∷◌, map, ℤ, pos, pos_part, ltb_ℤ, leb_ℤ,
  eqb_ℤ, ltb, if◌then◌else◌, length, set, replicate, range, Result, ok, ◌>>=◌, ◌>>◌, throw_if,
  invalid_argument,
}

-- An element by its index; the code's indices are in range.
abbrev pub at : List ℕ → ℕ → ℕ
at [] i = 0
at (x ∷ xs) zero = x
at (x ∷ xs) (suc i) = at xs i

-- `std::stable_sort` of the indices by descending size.
unfoldable pub insert_by_size : List ℕ → ℕ → List ℕ → List ℕ
insert_by_size sizes i [] = i ∷ []
insert_by_size sizes i (j ∷ order) =
    let rest = insert_by_size sizes i order in
    if ltb (at sizes i) (at sizes j) then j ∷ rest else i ∷ j ∷ order

unfoldable pub sort_by_size : List ℕ → List ℕ → List ℕ
sort_by_size sizes [] = []
sort_by_size sizes (i ∷ order) = insert_by_size sizes i (sort_by_size sizes order)

-- The loop over the ranks behind the first.
unfoldable pub least_loaded : List ℕ → List ℕ → ℕ → ℕ
least_loaded bytes_by_rank [] owner = owner
least_loaded bytes_by_rank (rank ∷ ranks) owner =
    least_loaded bytes_by_rank ranks
      (if ltb (at bytes_by_rank rank) (at bytes_by_rank owner) then rank else owner)

pub record Owners : Type 0 where
  pub bytes_by_rank : List ℕ
  pub owner_by_parameter : List ℕ

unfoldable pub own : List ℕ → ℕ → ℕ → Owners → Owners
own sizes data_parallel i owners =
    let owner = least_loaded owners.bytes_by_rank (range 1 (data_parallel - 1)) 0 in
    record {
      bytes_by_rank = set owners.bytes_by_rank owner (at owners.bytes_by_rank owner + at sizes i);
      owner_by_parameter = set owners.owner_by_parameter i owner;
    }

unfoldable pub own_all : List ℕ → ℕ → List ℕ → Owners → Owners
own_all sizes data_parallel [] owners = owners
own_all sizes data_parallel (i ∷ order) owners =
    own_all sizes data_parallel order (own sizes data_parallel i owners)

unfoldable pub has_negative : List ℤ → Bool
has_negative [] = false
has_negative (bytes ∷ parameter_bytes) = ltb_ℤ bytes (pos 0) || has_negative parameter_bytes

abbrev pub start_owners : ℕ → ℕ → Owners
start_owners parameters data_parallel = record {
  bytes_by_rank = replicate data_parallel 0;
  owner_by_parameter = replicate parameters 0;
}

abbrev pub owners_of : List ℕ → ℕ → List ℕ
owners_of sizes data_parallel =
    let order = sort_by_size sizes (range 0 (length sizes)) in
    (own_all sizes data_parallel order
      (start_owners (length sizes) data_parallel)).owner_by_parameter

unfoldable pub greedy_parameter_owner_by_size : List ℤ → ℤ → Result (List ℕ)
greedy_parameter_owner_by_size parameter_bytes data_parallel = do
  throw_if (leb_ℤ data_parallel (pos 0)) invalid_argument
  throw_if (has_negative parameter_bytes) invalid_argument
  ok (owners_of (map pos_part parameter_bytes) (pos_part data_parallel))

-- The loop of owned_parameter_indices, from an index on.
unfoldable pub owned_from : ℕ → List ℤ → ℤ → Result (List ℕ)
owned_from i [] data_rank = ok []
owned_from i (owner ∷ owner_by_parameter) data_rank = do
  throw_if (ltb_ℤ owner (pos 0)) invalid_argument
  rest ← owned_from (i + 1) owner_by_parameter data_rank
  ok (if eqb_ℤ owner data_rank then i ∷ rest else rest)

unfoldable pub owned_parameter_indices : List ℤ → ℤ → Result (List ℕ)
owned_parameter_indices owner_by_parameter data_rank = do
  throw_if (ltb_ℤ data_rank (pos 0)) invalid_argument
  owned_from 0 owner_by_parameter data_rank
