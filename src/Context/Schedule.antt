-- ===== src/Context/Schedule.antt =====
-- The ring schedule, and the dimension of a defined tensor.
use native.Mathlib.Nat.{mod-lt, mod-eq_of_lt, add-mod_right}
use cverl.Base.{
  length-map, length-range, get_elem?-map, get_elem?-range, ℕ, zero, suc, ◌+◌, ◌-◌, ◌%◌, ◌<◌, ◌≡◌,
  ◌≢◌, refl, ap, ◌∙◌, true, false, some, List, [], ◌∷◌, map, pos, leb_ℤ, ltb_ℤ, ◌||◌, leb, ◌==◌,
  ==_iff, length, get_elem?, range, ok, arith, Bool-cases, inl, inr,
}
use cverl.Context.Defs.{
  Input, normalize_sequence_dim, group_index_from, context_parallel_group_index,
  ContextParallelRingStep, member_at, ring_step, context_parallel_ring_schedule,
}

-- No rank stands at two places of a group.
abbrev pub IsDistinct : List ℕ → Type 0
IsDistinct group =
    (i j : ℕ) → i < length group → j < length group → member_at group i ≡ member_at group j → i ≡ j

group_index_from_lem :
    (from i : ℕ) (group : List ℕ)
    → i < length group
    → ((j : ℕ) → j < i → member_at group j ≢ member_at group i)
    → group_index_from from group (member_at group i) ≡ ok (from + i)
unfolding group_index_from
group_index_from_lem from i [] h first = absurd (omega arith)
group_index_from_lem from zero (g ∷ group) h first =
    let same : (g == g) ≡ true = (==_iff g g).1 refl in rw same (ap ok (omega arith))
group_index_from_lem from (suc i) (g ∷ group) h first =
    let other : (g == member_at group i) ≡ false = differ (first 0 (omega arith)) in
    rw other (
      group_index_from_lem (from + 1) i group (omega arith) (λ j lt. first (suc j) (omega arith))
      ∙ ap ok (omega arith))
  where
    differ : g ≢ member_at group i → (g == member_at group i) ≡ false
    differ unequal = elim (Bool-cases (g == member_at group i)) [
      | inl same ↦ absurd (unequal ((==_iff g (member_at group i)).0 same))
      | inr other ↦ other
    ]

pub ring_schedule_at :
    (group : List ℕ) (i : ℕ)
    → IsDistinct group
    → i < length group
    → context_parallel_ring_schedule group (member_at group i)
      ≡ ok (map (ring_step group i) (range 0 (length group)))
unfolding context_parallel_ring_schedule context_parallel_group_index
ring_schedule_at group i distinct h =
    let some_rank : (length group == 0) ≡ false = ground arith in
    let index : group_index_from 0 group (member_at group i) ≡ ok i =
      group_index_from_lem 0 i group h
        (λ j lt same. absurd (omega (arith, distinct j i (omega arith) h same)))
      ∙ ap ok (omega arith) in
    rw (some_rank, index)

pub normalize_sequence_dim_lem :
    {Row : Type 0} (input : Input Row) (d : ℕ)
    → input.defined ≡ true
    → d < input.dim
    → normalize_sequence_dim input (pos d) ≡ ok d
unfolding normalize_sequence_dim
normalize_sequence_dim_lem input d defined in_dim =
    let inside : (ltb_ℤ (pos d) (pos 0) || leb_ℤ (pos input.dim) (pos d)) ≡ false = ground arith in
    rw (defined, inside)

round_trip : (n i k : ℕ) → i < n → k < n → (i + n - (0 + (i + n - k) % n)) % n ≡ k
round_trip n i k h lt = elim (Bool-cases (leb k i)) [
  | inl back ↦
      let over : i + n - k ≡ i - k + n = ground arith in
      let at : (i + n - k) % n ≡ i - k =
        ap (λ x. x % n) over ∙ add-mod_right (i - k) n ∙ mod-eq_of_lt (ground arith) in
      let left : i + n - (0 + (i + n - k) % n) ≡ k + n = rw at (ground arith) in
      ap (λ x. x % n) left ∙ add-mod_right k n ∙ mod-eq_of_lt lt
  | inr on ↦
      let at : (i + n - k) % n ≡ i + n - k = mod-eq_of_lt (ground arith) in
      let left : i + n - (0 + (i + n - k) % n) ≡ k = rw at (ground arith) in
      ap (λ x. x % n) left ∙ mod-eq_of_lt lt
]

-- In a group of distinct ranks, the schedule of a rank has as many steps as there are ranks, and the
-- block of the rank at place k stands at the step that is the distance back to k around the ring.
ring_schedule-member :
    (group : List ℕ) (i k : ℕ)
    → IsDistinct group
    → i < length group
    → k < length group
    → (schedule : List ContextParallelRingStep) × (context_parallel_ring_schedule group
          (member_at group i)
        ≡ ok schedule)
      × (length schedule ≡ length group)
      × (get_elem? (map (λ s. s.kv_rank) schedule) ((i + length group - k) % length group)
          ≡ some (member_at group k))
ring_schedule-member group i k distinct h lt =
    let n = length group in
    let at = (i + n - k) % n in
    let at_lt : at < n = mod-lt (i + n - k) (omega arith) in
    (
      map (ring_step group i) (range 0 n),
      ring_schedule_at group i distinct h,
      length-map (ring_step group i) (range 0 n) ∙ length-range 0 n,
      get_elem?-map (λ s. s.kv_rank) (map (ring_step group i) (range 0 n)) at
            (get_elem?-map (ring_step group i) (range 0 n) at (get_elem?-range 0 n at at_lt))
          ∙ ap (λ j. some (member_at group j)) (round_trip n i k h lt),
    )
