-- ===== src/Context/Slices.antt =====
-- The padded slices of a sequence, and their gathering.
use native.Mathlib.Nat.{mod-lt}
use mathlib.Core.List.{flat_map}
use cverl.Base.{
  ℕ, zero, suc, ◌+◌, ◌-◌, ◌*◌, ◌/◌, ◌%◌, ◌≤◌, ◌<◌, ◌≡◌, refl, ap, sym, subst, ◌∙◌, true, false,
  ◌||◌, List, [], ◌++◌, map, pos, leb_ℤ, ltb_ℤ, ltb, leb, ◌==◌, if◌then◌else◌, length,
  length-append, length-replicate, length-drop, replicate, range, take, drop, take_all, take_left,
  take-min, take-append_split, drop-append_split, drop_all, take-replicate, drop-replicate,
  flat_map-blocks, flat_map-map, Result, ok, ◌>>=◌, map_result, map_result-range, min, Bool-cases,
  inl, inr, arith,
}
use cverl.Sharding.Defs.{padded_size}
use cverl.Sharding.Tiles.{padded_size_mul}
use cverl.Context.Defs.{
  Input, validate_context_rank, padded_length, shard_range, context_parallel_padded_length,
  context_parallel_sequence_range, copy_valid, context_parallel_slice_padded,
  context_parallel_gather, context_parallel_gather_padded,
}
use cverl.Context.Schedule.{normalize_sequence_dim_lem}

-- The padded length is the one that the optimizer shards are padded to.
padded_length-padded_size : (n cp : ℕ) → 0 < cp → padded_length n cp ≡ padded_size n cp
padded_length-padded_size n cp h = elim (Bool-cases (n % cp == 0)) [
  | inl even ↦ rw even (omega arith)
  | inr odd ↦ rw odd (ground (arith, mod-lt n {m = cp} h))
]

module _ {Row : Type 0} (pad : Row) where
  -- A sequence with its padding for a number of ranks.
  abbrev pub padded_rows : ℕ → List Row → List Row
  padded_rows cp rows = rows ++ replicate (padded_length (length rows) cp - length rows) pad

  copied :
      (v size : ℕ) (xs : List Row)
      → (if ltb 0 v then take v xs ++ drop v (replicate size pad) else replicate size pad)
        ≡ take v xs ++ replicate (size - v) pad
  copied zero size xs = ap (λ k. replicate k pad) (the_size size)
    where
      the_size : (k : ℕ) → k ≡ k - 0
      the_size k = omega arith
  copied (suc v) size xs =
      let some_valid : ltb 0 (suc v) ≡ true = ground arith in
      rw (some_valid, drop-replicate (suc v) size pad) refl

  valid_rows :
      (rows : List Row) (b size : ℕ)
      → take (min (b + size) (length rows) - min b (length rows)) (drop (min b (length rows)) rows)
        ≡ take size (drop b rows)
  valid_rows rows b size = elim (Bool-cases (ltb b (length rows))) [
    | inl inside ↦
        let from : min b (length rows) ≡ b = ground arith in
        let count : min (b + size) (length rows) - b ≡ min size (length (drop b rows)) =
          rw (length-drop b rows) (ground arith) in
        rw (from, count) (take-min size (drop b rows))
    | inr outside ↦
        let none_valid : min (b + size) (length rows) - min b (length rows) ≡ 0 = ground arith in
        let behind : drop b rows ≡ [] = drop_all b rows (ground arith) in
        rw (none_valid, behind) (sym (take_all size [] (omega arith)))
  ]

  -- The rows of a slice are its block of the padded sequence.
  copy_valid-block :
      (rows : List Row) (b size k : ℕ)
      → b + size ≤ length rows + k
      → copy_valid
          (record {
            begin = min b (length rows);
            end = min (b + size) (length rows);
            padded_end = b + size;
          })
          rows
          (replicate size pad)
        ≡ take size (drop b (rows ++ replicate k pad))
  copy_valid-block rows b size k fits =
      let n = length rows in
      let left : size - length (drop b rows) ≡ size - (n - b) = rw (length-drop b rows) refl in
      let zeros : size - (min (b + size) n - min b n) ≡ min (size - (n - b)) (k - (b - n)) =
        omega arith in
      copied (min (b + size) n - min b n) size (drop (min b n) rows)
      ∙ ap (λ xs. xs ++ replicate (size - (min (b + size) n - min b n)) pad)
          (valid_rows rows b size)
      ∙ ap (λ m. take size (drop b rows) ++ replicate m pad) zeros
      ∙ sym (
          rw
            (
              drop-append_split b rows (replicate k pad),
              take-append_split size (drop b rows) (drop (b - n) (replicate k pad)),
              left,
              drop-replicate (b - n) k pad,
              take-replicate (size - (n - b)) (k - (b - n)) pad,
            )
            refl)

  -- The slice of a rank, behind the tests.
  abbrev slice_size : ℕ → ℕ → ℕ
  slice_size n cp = padded_length n cp / cp

  abbrev slice_rows : ℕ → List Row → ℕ → List Row
  slice_rows cp rows rank =
      take (slice_size (length rows) cp)
        (drop (rank * slice_size (length rows) cp) (padded_rows cp rows))

  slice_size_mul : (n cp : ℕ) → 0 < cp → slice_size n cp * cp ≡ padded_length n cp
  slice_size_mul n cp h =
      let same = padded_length-padded_size n cp h in
      ap (λ m. m / cp * cp) same ∙ padded_size_mul n cp h ∙ sym same

  padded_length_long : (n cp : ℕ) → 0 < cp → n ≤ padded_length n cp
  padded_length_long n cp h =
      subst (λ m. n ≤ m) (sym (padded_length-padded_size n cp h)) (omega arith)

  below : (r d size : ℕ) → r < d → r * size + size ≤ size * d
  below r d size h = grind arith

  slice_padded_lem :
      (input : Input Row) (cp rank d : ℕ)
      → input.defined ≡ true
      → d < input.dim
      → rank < cp
      → context_parallel_slice_padded input (pos rank) (pos cp) (pos d) pad
        ≡ ok (record input { rows = slice_rows cp input.rows rank })
  unfolding context_parallel_slice_padded validate_context_rank context_parallel_sequence_range
      context_parallel_padded_length
  slice_padded_lem input cp rank d defined in_dim h =
      let n = length input.rows in
      let valid : (leb_ℤ (pos cp) (pos 0)
            || (ltb_ℤ (pos rank) (pos 0) || leb_ℤ (pos cp) (pos rank)))
          ≡ false =
        ground arith in
      let some_ranks : leb_ℤ (pos cp) (pos 0) ≡ false = ground arith in
      let natural : ltb_ℤ (pos n) (pos 0) ≡ false = ground arith in
      let dim_ok = normalize_sequence_dim_lem input d defined in_dim in
      let size = padded_length n cp / cp in
      let rows : copy_valid (shard_range n rank cp) input.rows (replicate size pad)
          ≡ slice_rows cp input.rows rank =
        let fits : rank * size + size ≤ n + (padded_length n cp - n) = omega (
          arith,
          below rank cp size h,
          slice_size_mul n cp (omega arith),
          padded_length_long n cp (omega arith),
        ) in
        copy_valid-block input.rows (rank * size) size (padded_length n cp - n) fits in
      rw (valid, dim_ok, natural, some_ranks) (ap (λ xs. ok (record input { rows = xs })) rows)

  whole_slices :
      (cp : ℕ) (rows : List Row)
      → 0 < cp
      → flat_map (slice_rows cp rows) (range 0 cp) ≡ padded_rows cp rows
  whole_slices cp rows h =
      let n = length rows in
      let size = slice_size n cp in
      let none_before : 0 * size ≡ 0 = omega arith in
      let enough : length (padded_rows cp rows) ≤ cp * size = omega (
        arith,
        length-append rows (replicate (padded_length n cp - n) pad),
        length-replicate (padded_length n cp - n) pad,
        slice_size_mul n cp h,
        padded_length_long n cp h,
      ) in
      flat_map-blocks size (padded_rows cp rows) 0 cp
      ∙ ap (λ b. take (cp * size) (drop b (padded_rows cp rows))) none_before
      ∙ take_all (cp * size) (padded_rows cp rows) enough

  -- If all_gather of a group of more than one rank gives the padded slices of its ranks one behind the
  -- other, gathering the slice of a rank, cut to the length of the sequence, gives back the sequence.
  pub gather_padded-slice_padded :
      (all_gather : Input Row → List ℕ → Result (Input Row)) (group : List ℕ) (rank d : ℕ)
      (input : Input Row)
      → input.defined ≡ true
      → d < input.dim
      → rank < length group
      → 1 < length group
      → ((slices : List (Input Row)) (local : Input Row)
          → map_result
              (λ k. context_parallel_slice_padded input (pos k) (pos (length group)) (pos d) pad)
              (range 0 (length group))
            ≡ ok slices
          → context_parallel_slice_padded input (pos rank) (pos (length group)) (pos d) pad
            ≡ ok local
          → all_gather local group ≡ ok (record local { rows = flat_map (λ s. s.rows) slices }))
      → (context_parallel_slice_padded input (pos rank) (pos (length group)) (pos d) pad
          >>= λ local.
              context_parallel_gather_padded all_gather local group
                (pos d)
                (pos (length input.rows)))
        ≡ ok input
  unfolding context_parallel_gather_padded context_parallel_gather
  gather_padded-slice_padded all_gather group rank d input defined in_dim h many gathers =
      let cp = length group in
      let slice = λ (k : ℕ). record input { rows = slice_rows cp input.rows k } in
      let local = slice rank in
      let mine = slice_padded_lem input cp rank d defined in_dim h in
      let slices =
        map_result-range (λ k. context_parallel_slice_padded input (pos k) (pos cp) (pos d) pad)
          slice 0 cp (λ k low high. slice_padded_lem input cp k d defined in_dim (omega arith)) in
      let whole : flat_map (λ s. s.rows) (map slice (range 0 cp)) ≡ padded_rows cp input.rows =
        flat_map-map (λ s. s.rows) slice (range 0 cp) ∙ whole_slices cp input.rows (omega arith) in
      let gathered : all_gather local group
          ≡ ok (record input { rows = padded_rows cp input.rows }) =
        gathers (map slice (range 0 cp)) local slices mine
        ∙ ap (λ xs. ok (record input { rows = xs })) whole in
      let several : leb cp 1 ≡ false = ground arith in
      let natural : ltb_ℤ (pos (length input.rows)) (pos 0) ≡ false = ground arith in
      let long : ltb (length (padded_rows cp input.rows)) (length input.rows) ≡ false = ground (
        arith,
        length-append input.rows
            (replicate (padded_length (length input.rows) cp - length input.rows) pad),
      ) in
      let dim_local = normalize_sequence_dim_lem local d defined in_dim in
      let dim_whole =
        normalize_sequence_dim_lem (record input { rows = padded_rows cp input.rows }) d defined
          in_dim in
      rw (mine, natural, several, dim_local, gathered, dim_whole, long)
        (ap (λ xs. ok (record input { rows = xs }))
          (take_left input.rows
            (replicate (padded_length (length input.rows) cp - length input.rows) pad)))
