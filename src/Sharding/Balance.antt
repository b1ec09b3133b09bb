-- ===== src/Sharding/Balance.antt =====
-- The ranks own about as many bytes each.
use cverl.Base.{
  ℕ, suc, ◌+◌, ◌≤◌, ◌<◌, ◌≡◌, refl, ap, ◌∙◌, Bool, true, false, List, [], ◌∷◌, map, pos, pos_part,
  ltb_ℤ, leb_ℤ, eqb_ℤ, ◌==◌, if◌then◌else◌, length, length-replicate, range, All, All-range, ok,
  arith,
}
use cverl.Sharding.Owners.{
  at, sort_by_size, own_all, has_negative, start_owners, owners_of, greedy_parameter_owner_by_size,
  owned_from, owned_parameter_indices,
}
use cverl.Sharding.Fair.{IsFair, own_all-IsFair, bytes-own_all, at-replicate}
use cverl.Sharding.Loads.{All-sort, Distinct-sort, load-sort, Distinct-range, load_over}

-- The bytes of the parameters that a rank owns.
abbrev load : List ℕ → List ℕ → ℕ → ℕ
load sizes owners rank = load_over sizes owners rank (range 0 (length sizes))

eqb_ℤ-pos : (a b : ℕ) → eqb_ℤ (pos a) (pos b) ≡ (a == b)
eqb_ℤ-pos a b = ground arith

no_negative : (sizes : List ℕ) → has_negative (map pos sizes) ≡ false
unfolding has_negative
no_negative [] = refl
no_negative (s ∷ sizes) =
    let here : ltb_ℤ (pos s) (pos 0) ≡ false = ground arith in rw (here, no_negative sizes)

sizes_kept : (sizes : List ℕ) → map pos_part (map pos sizes) ≡ sizes
sizes_kept [] = refl
sizes_kept (s ∷ sizes) = ap (◌∷◌ s) (sizes_kept sizes)

greedy_parameter_owner_by_size-owners_of :
    (sizes : List ℕ) (ranks : ℕ)
    → 0 < ranks
    → greedy_parameter_owner_by_size (map pos sizes) (pos ranks) ≡ ok (owners_of sizes ranks)
unfolding greedy_parameter_owner_by_size
greedy_parameter_owner_by_size-owners_of sizes ranks some_rank =
    let positive : leb_ℤ (pos ranks) (pos 0) ≡ false = ground arith in
    rw (positive, no_negative sizes, sizes_kept sizes)

start-IsFair :
    (sizes : List ℕ) (ranks : ℕ) (some_rank : 0 < ranks) (largest : ℕ)
    → IsFair sizes ranks some_rank largest (start_owners (length sizes) ranks)
start-IsFair sizes ranks some_rank largest = record {
  all_ranks = length-replicate ranks 0;
  all_parameters = length-replicate (length sizes) 0;
  owned_by_rank = λ i. rw (at-replicate (length sizes) i) some_rank;
  fair = λ a b a_lt b_lt. rw (at-replicate ranks a) (omega arith);
}

-- The sizes of the parameters in a list of indices.
abbrev pub total : List ℕ → List ℕ → ℕ
total sizes [] = 0
total sizes (i ∷ indices) = at sizes i + total sizes indices

owned_from-load :
    (sizes full : List ℕ) (rank i : ℕ) (rest : List ℕ)
    → ((j : ℕ) → at full (i + j) ≡ at rest j)
    → (mine : List ℕ) × (owned_from i (map pos rest) (pos rank) ≡ ok mine)
      × (total sizes mine ≡ load_over sizes full rank (range i (length rest)))
unfolding owned_from load_over
owned_from-load sizes full rank i [] h = ([], refl, refl)
owned_from-load sizes full rank i (owner ∷ rest) h =
    let whose : at full i ≡ owner = ap (at full) (right_zero i) ∙ h 0 in
    let no_sign : ltb_ℤ (pos owner) (pos 0) ≡ false = ground arith in
    by_owner whose no_sign (eqb_ℤ-pos owner rank)
      (owned_from-load sizes full rank (i + 1) rest (λ j. ap (at full) (shifted i j) ∙ h (suc j)))
  where
    right_zero : (k : ℕ) → k ≡ k + 0
    right_zero k = omega arith

    shifted : (k j : ℕ) → k + 1 + j ≡ k + suc j
    shifted k j = omega arith

    chosen :
        (t : Bool) (mine : List ℕ) (others : ℕ)
        → total sizes mine ≡ others
        → total sizes (if t then i ∷ mine else mine) ≡ (if t then at sizes i else 0) + others
    chosen true mine others sum = omega arith
    chosen false mine others sum = omega arith

    by_owner :
        at full i ≡ owner
        → ltb_ℤ (pos owner) (pos 0) ≡ false
        → eqb_ℤ (pos owner) (pos rank) ≡ (owner == rank)
        → ((mine : List ℕ) × (owned_from (i + 1) (map pos rest) (pos rank) ≡ ok mine)
            × (total sizes mine ≡ load_over sizes full rank (range (i + 1) (length rest))))
        → (mine : List ℕ) × (owned_from i (map pos (owner ∷ rest)) (pos rank) ≡ ok mine)
          × (total sizes mine ≡ load_over sizes full rank (range i (suc (length rest))))
    by_owner whose no_sign same_test (mine, found, sum) = (
      if owner == rank then i ∷ mine else mine,
      rw (no_sign, found, same_test),
      rw whose (chosen (owner == rank) mine _ sum),
    )

owned_parameter_indices-load :
    (sizes owners : List ℕ) (rank : ℕ)
    → length owners ≡ length sizes
    → (mine : List ℕ) × (owned_parameter_indices (map pos owners) (pos rank) ≡ ok mine)
      × (total sizes mine ≡ load sizes owners rank)
unfolding owned_parameter_indices
owned_parameter_indices-load sizes owners rank same =
    let no_sign : ltb_ℤ (pos rank) (pos 0) ≡ false = ground arith in
    let (mine, found, sum) =
      owned_from-load sizes owners rank 0 owners (λ j. ap (at owners) (from_zero j)) in
    (mine, rw no_sign found, sum ∙ ap (λ n. load_over sizes owners rank (range 0 n)) same)
  where
    from_zero : (j : ℕ) → 0 + j ≡ j
    from_zero j = omega arith

greedy_parameter_owner_by_size-load :
    (sizes : List ℕ) (ranks largest : ℕ)
    → 0 < ranks
    → ((i : ℕ) → i < length sizes → at sizes i ≤ largest)
    → (owners : List ℕ) × (greedy_parameter_owner_by_size (map pos sizes) (pos ranks) ≡ ok owners)
      × (length owners ≡ length sizes)
      × ((i : ℕ) → at owners i < ranks)
      × ((a b : ℕ) → a < ranks → b < ranks → load sizes owners a ≤ load sizes owners b + largest)
greedy_parameter_owner_by_size-load sizes ranks largest some_rank small =
    let indices = range 0 (length sizes) in
    let order = sort_by_size sizes indices in
    let start = start_owners (length sizes) ranks in
    let begin = start-IsFair sizes ranks some_rank largest in
    let small_order : All (λ i. at sizes i ≤ largest) order =
      All-sort sizes (λ i. at sizes i ≤ largest) indices
        (All-range (λ i. at sizes i ≤ largest) 0 (length sizes) (λ i l h. small i (omega arith))) in
    let inside : All (λ i. i < length sizes) order =
      All-sort sizes (λ i. i < length sizes) indices
        (All-range (λ i. i < length sizes) 0 (length sizes) (λ i l h. omega arith)) in
    let distinct = Distinct-sort sizes indices (Distinct-range 0 (length sizes)) in
    let finally = own_all-IsFair sizes ranks some_rank largest order start small_order begin in
    let bytes : (r : ℕ)
        → r < ranks
        → at (own_all sizes ranks order start).bytes_by_rank r
          ≡ load sizes (owners_of sizes ranks) r =
      λ r lt.
        bytes-own_all sizes ranks some_rank largest order start r begin small_order inside distinct
          lt
        ∙ ap (λ n. n + load_over sizes (owners_of sizes ranks) r order) (at-replicate ranks r)
        ∙ omega arith
        ∙ load-sort sizes (owners_of sizes ranks) r indices in
    (
      owners_of sizes ranks,
      greedy_parameter_owner_by_size-owners_of sizes ranks some_rank,
      finally.all_parameters,
      finally.owned_by_rank,
      λ a b a_lt b_lt.
          let left = bytes a a_lt in
          let right = bytes b b_lt in let near = finally.fair a b a_lt b_lt in omega arith,
    )

-- For at least one rank and sizes that are not negative, every parameter gets an owner among the
-- ranks; and of the parameters that owned_parameter_indices gives a rank for these owners, the
-- sizes sum up to no more than the largest size above the sum of any other rank.
pub greedy_parameter_owner_by_size-owned_parameter_indices :
    (sizes : List ℕ) (ranks largest : ℕ)
    → 0 < ranks
    → ((i : ℕ) → i < length sizes → at sizes i ≤ largest)
    → (owners : List ℕ) × (greedy_parameter_owner_by_size (map pos sizes) (pos ranks) ≡ ok owners)
      × (length owners ≡ length sizes)
      × ((i : ℕ) → at owners i < ranks)
      × ((a b : ℕ)
          → a < ranks
          → b < ranks
          → (mine : List ℕ) × (theirs : List ℕ) × (owned_parameter_indices (map pos owners) (pos a)
              ≡ ok mine)
            × (owned_parameter_indices (map pos owners) (pos b) ≡ ok theirs)
            × (total sizes mine ≤ total sizes theirs + largest))
greedy_parameter_owner_by_size-owned_parameter_indices sizes ranks largest some_rank small =
    let (owners, found, count, ranked, near) =
      greedy_parameter_owner_by_size-load sizes ranks largest some_rank small in
    (owners, found, count, ranked, λ a b a_lt b_lt. both owners a b count (near a b a_lt b_lt))
  where
    both :
        (owners : List ℕ) (a b : ℕ)
        → length owners ≡ length sizes
        → load sizes owners a ≤ load sizes owners b + largest
        → (mine : List ℕ) × (theirs : List ℕ) × (owned_parameter_indices (map pos owners) (pos a)
            ≡ ok mine)
          × (owned_parameter_indices (map pos owners) (pos b) ≡ ok theirs)
          × (total sizes mine ≤ total sizes theirs + largest)
    both owners a b count near =
        let (mine, found, sum) = owned_parameter_indices-load sizes owners a count in
        let (theirs, found_too, sum_too) = owned_parameter_indices-load sizes owners b count in
        (mine, theirs, found, found_too, omega arith)
