-- ===== src/Context/Ring.antt =====
-- The ring exchange: what the ranks hold after each hop.
use native.Mathlib.Nat.{mod-lt, mod-eq_of_lt, mod-add-mod, add-mod_right}
use mathlib.Core.List.{flat_map}
use cverl.Base.{
  ℕ, zero, suc, ◌+◌, ◌-◌, ◌%◌, ◌<◌, ◌≡◌, refl, ap, sym, ◌∙◌, true, false, List, ◌∷◌, map, ℤ, pos,
  leb_ℤ, ltb_ℤ, ◌||◌, leb, ◌==◌, length, range, ok, arith, flat_map-map, flat_map-range,
}
use cverl.Context.Schedule.{IsDistinct, normalize_sequence_dim_lem, ring_schedule_at}
use cverl.Context.Defs.{
  Input, validate_context_rank, ContextParallelRingStep, member_at, send_rank_of, recv_rank_of,
  ring_step, context_parallel_ring_schedule, ring_blocks, ring_exchange_forward,
  context_parallel_ring_exchange_autograd,
}

-- The place that a rank comes from, and the place it sends to.
back_and_on : (n i : ℕ) → i < n → ((i + n - 1) % n + 1) % n ≡ i
back_and_on n i h =
    mod-add-mod (i + n - 1) n 1 ∙ ap (λ k. k % n) (the_sum) ∙ add-mod_right i n ∙ mod-eq_of_lt h
  where
    the_sum : i + n - 1 + 1 ≡ i + n
    the_sum = omega arith

further_back : (n i hop : ℕ) → suc hop < n → ((i + n - 1) % n + n - hop) % n ≡ (i + n - suc hop) % n
further_back n i hop h =
    ap (λ k. k % n) regroup
    ∙ mod-add-mod (i + n - 1) n (n - hop)
    ∙ ap (λ k. k % n) all_round
    ∙ add-mod_right (i + n - suc hop) n
  where
    regroup : (i + n - 1) % n + n - hop ≡ (i + n - 1) % n + (n - hop)
    regroup = omega arith

    all_round : i + n - 1 + (n - hop) ≡ i + n - suc hop + n
    all_round = omega arith

module _ {Row : Type 0} (send_recv : ℕ → ℕ → Input Row → ℤ → ℤ → Input Row) (block : ℕ → Input Row)
    (group : List ℕ) where
  -- What the rank at a place holds after that number of hops, `block` of each rank before the first.
  abbrev pub held : ℕ → ℕ → Input Row
  held i zero = block (member_at group i)
  held i (suc hop) = send_recv i hop (held i hop) (send_rank_of group i) (recv_rank_of group i)

  -- A hop brings to a rank what the rank that it receives from holds, if that one sends to it.
  abbrev pub Delivers : Type 0
  Delivers =
      (i j hop : ℕ)
      → i < length group
      → j < length group
      → recv_rank_of group i ≡ pos (member_at group j)
      → send_rank_of group j ≡ pos (member_at group i)
      → send_recv i hop (held i hop) (send_rank_of group i) (recv_rank_of group i) ≡ held j hop

  held-block :
      Delivers
      → 1 < length group
      → (hop i : ℕ) → hop < length group
      → i < length group
      → held i hop ≡ block (member_at group ((i + length group - hop) % length group))
  held-block delivers many zero i lt h =
      ap (λ k. block (member_at group k))
        (sym
          (ap (λ k. k % length group) (the_sum) ∙ add-mod_right i (length group) ∙ mod-eq_of_lt h))
    where
      the_sum : i + length group - 0 ≡ i + length group
      the_sum = omega arith
  held-block delivers many (suc hop) i lt h =
      let n = length group in
      let j = (i + n - 1) % n in
      let j_lt : j < n = mod-lt (i + n - 1) (omega arith) in
      let several : (n == 1) ≡ false = ground arith in
      let from_j : recv_rank_of group i ≡ pos (member_at group j) = rw several refl in
      let to_i : send_rank_of group j ≡ pos (member_at group i) =
        rw several (ap (λ k. pos (member_at group k)) (back_and_on n i h)) in
      delivers i j hop h j_lt from_j to_i
      ∙ held-block delivers many hop j (omega arith) j_lt
      ∙ ap (λ k. block (member_at group k)) (further_back n i hop lt)

  -- The collected blocks, from a hop on.
  ring_blocks-held :
      (i hop count : ℕ)
      → ring_blocks (send_recv i) hop (held i hop) (map (ring_step group i) (range hop (suc count)))
        ≡ map (held i) (range hop (suc count))
  unfolding ring_blocks
  ring_blocks-held i hop zero = refl
  ring_blocks-held i hop (suc count) =
      let shift : suc hop ≡ hop + 1 = omega arith in
      let next : held i (suc hop) ≡ held i (hop + 1) = ap (held i) shift in
      ap
        (λ x.
          held i hop
          ∷ ring_blocks (send_recv i) (hop + 1) x
              (map (ring_step group i) (range (hop + 1) (suc count))))
        next
      ∙ ap (◌∷◌ (held i hop)) (ring_blocks-held i (hop + 1) count)

  kv_rows :
      (i : ℕ)
      → Delivers
      → 1 < length group
      → i < length group
      → flat_map (λ b. b.rows) (map (held i) (range 0 (length group)))
        ≡ flat_map (λ s. (block s.kv_rank).rows) (map (ring_step group i) (range 0 (length group)))
  kv_rows i delivers many h =
      let n = length group in
      flat_map-map (λ b. b.rows) (held i) (range 0 n)
      ∙ flat_map-range (λ hop. (held i hop).rows)
          (λ hop. (block (ring_step group i hop).kv_rank).rows) 0 n
          (λ hop low high. ap (λ b. b.rows) (held-block delivers many hop i (omega arith) h))
      ∙ sym (flat_map-map (λ s. (block s.kv_rank).rows) (ring_step group i) (range 0 n))

  ring_blocks-all :
      (i : ℕ)
      → 0 < length group
      → ring_blocks
          (send_recv i)
          0
          (block (member_at group i))
          (map (ring_step group i) (range 0 (length group)))
        ≡ map (held i) (range 0 (length group))
  ring_blocks-all i h =
      let count : suc (length group - 1) ≡ length group = omega arith in
      ap
        (λ n.
          ring_blocks (send_recv i) 0 (block (member_at group i))
            (map (ring_step group i) (range 0 n)))
        (sym count)
      ∙ ring_blocks-held i 0 (length group - 1)
      ∙ ap (λ n. map (held i) (range 0 n)) count

  -- In a group of distinct ranks, more than one, if each hop brings to a rank what its sender holds,
  -- the ring exchange of a rank returns the rows of the blocks of all ranks in the order of its
  -- schedule.
  pub ring_exchange-schedule :
      (i d : ℕ)
      → IsDistinct group
      → Delivers
      → 1 < length group
      → i < length group
      → (block (member_at group i)).defined ≡ true
      → d < (block (member_at group i)).dim
      → (schedule : List ContextParallelRingStep) × (context_parallel_ring_schedule group
            (member_at group i)
          ≡ ok schedule)
        × (context_parallel_ring_exchange_autograd
              (send_recv i)
              (block (member_at group i))
              group
              (pos i)
              (pos d)
            ≡ ok (record (block (member_at group i)) {
              rows = flat_map (λ s. (block s.kv_rank).rows) schedule;
            }))
  unfolding context_parallel_ring_exchange_autograd ring_exchange_forward validate_context_rank
  ring_exchange-schedule i d distinct delivers many h defined in_dim =
      let n = length group in
      let local = block (member_at group i) in
      let valid : (leb_ℤ (pos n) (pos 0) || (ltb_ℤ (pos i) (pos 0) || leb_ℤ (pos n) (pos i)))
          ≡ false =
        ground arith in
      let alone : leb n 1 ≡ false = ground arith in
      let dim_ok = normalize_sequence_dim_lem local d defined in_dim in
      let rows =
        ap (flat_map (λ b. b.rows)) (ring_blocks-all i (omega arith)) ∙ kv_rows i delivers many h in
      (
        map (ring_step group i) (range 0 n),
        ring_schedule_at group i distinct h,
        rw (valid, alone, dim_ok, dim_ok, ring_schedule_at group i distinct h)
            (ap (λ xs. ok (record local { rows = xs })) rows),
      )
