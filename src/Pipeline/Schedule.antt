-- ===== src/Pipeline/Schedule.antt =====
-- The schedule of one stage: what its three loops push, and how many activations it keeps.
use mathlib.Core.List.{flat_map, append-nil}
use cverl.Base.{
  ℕ, zero, suc, ◌+◌, ◌-◌, ◌≤◌, ◌<◌, ◌≡◌, refl, ap, ◌∙◌, List, [], ◌∷◌, ◌++◌, map, range, max, ok,
  ◌>>=◌, >>=-regroup, arith, range-append,
}
use cverl.Pipeline.Defs.{
  PipelinePeers, PipelineSchedulePhase, warmup, steady, cooldown, PipelineScheduleOp, forward,
  backward, PipelineScheduleAction, forward_action, backward_action, schedule_loops, live_loop,
  live_step, pipeline_schedule_max_live_activations,
}

-- The micro-batches of the actions with this operation, in order.
abbrev pub cons_if : PipelineScheduleOp → PipelineScheduleOp → ℕ → List ℕ → List ℕ
cons_if forward forward mb rest = mb ∷ rest
cons_if backward backward mb rest = mb ∷ rest
cons_if _ _ mb rest = rest

unfoldable pub batches : PipelineScheduleOp → List PipelineScheduleAction → List ℕ
batches op [] = []
batches op (action ∷ actions) = cons_if op action.op action.micro_batch (batches op actions)

cons_if-append :
    (o o' : PipelineScheduleOp) (mb : ℕ) (xs ys : List ℕ)
    → cons_if o o' mb (xs ++ ys) ≡ cons_if o o' mb xs ++ ys
cons_if-append forward forward mb xs ys = refl
cons_if-append forward backward mb xs ys = refl
cons_if-append backward forward mb xs ys = refl
cons_if-append backward backward mb xs ys = refl

batches-append :
    (op : PipelineScheduleOp) (xs ys : List PipelineScheduleAction)
    → batches op (xs ++ ys) ≡ batches op xs ++ batches op ys
unfolding batches
batches-append op [] ys = refl
batches-append op (x ∷ xs) ys =
    ap (cons_if op x.op x.micro_batch) (batches-append op xs ys)
    ∙ cons_if-append op x.op x.micro_batch (batches op xs) (batches op ys)

live_loop-append :
    (xs ys : List PipelineScheduleAction) (live max_live : ℕ)
    → live_loop (xs ++ ys) live max_live
      ≡ (live_loop xs live max_live >>= λ counters. live_loop ys counters.0 counters.1)
unfolding live_loop
live_loop-append [] ys live max_live = refl
live_loop-append (x ∷ xs) ys live max_live =
    >>=-regroup (live_step x.op live max_live) _ _ _ λ c. live_loop-append xs ys c.0 c.1

module _ (peers : PipelinePeers) where
  abbrev steady_pair : ℕ → ℕ → List PipelineScheduleAction
  steady_pair w i = forward_action peers steady (w + i) ∷ backward_action peers steady i ∷ []

  batches-forwards :
      (phase : PipelineSchedulePhase) (from count : ℕ)
      → (batches forward (map (forward_action peers phase) (range from count)) ≡ range from count)
        × (batches backward (map (forward_action peers phase) (range from count)) ≡ [])
  unfolding batches
  batches-forwards phase from zero = (refl, refl)
  batches-forwards phase from (suc count) =
      let (f, b) = batches-forwards phase (from + 1) count in (ap (◌∷◌ from) f, b)

  batches-backwards :
      (phase : PipelineSchedulePhase) (from count : ℕ)
      → (batches backward (map (backward_action peers phase) (range from count)) ≡ range from count)
        × (batches forward (map (backward_action peers phase) (range from count)) ≡ [])
  unfolding batches
  batches-backwards phase from zero = (refl, refl)
  batches-backwards phase from (suc count) =
      let (b, f) = batches-backwards phase (from + 1) count in (ap (◌∷◌ from) b, f)

  batches-steady :
      (w from count : ℕ)
      → (batches forward (flat_map (steady_pair w) (range from count)) ≡ range (w + from) count)
        × (batches backward (flat_map (steady_pair w) (range from count)) ≡ range from count)
  unfolding batches flat_map
  batches-steady w from zero = (refl, refl)
  batches-steady w from (suc count) =
      let (f, b) = batches-steady w (from + 1) count in
      let e : w + (from + 1) ≡ w + from + 1 = omega arith in
      (ap (◌∷◌ (w + from)) (f ∙ ap (λ (x : ℕ). range x count) e), ap (◌∷◌ from) b)

  -- Both operations take the micro-batches 0, 1, ... in order, each once.
  pub batches-schedule_loops :
      (w m : ℕ)
      → w ≤ m
      → (batches forward (schedule_loops peers w m) ≡ range 0 m)
        × (batches backward (schedule_loops peers w m) ≡ range 0 m)
  batches-schedule_loops w m h =
      let s = m - w in
      let warm = batches-forwards warmup 0 w in
      let pairs = batches-steady w 0 s in
      let cool = batches-backwards cooldown s (m - s) in
      let split = λ (op : PipelineScheduleOp).
        batches-append op (map (forward_action peers warmup) (range 0 w)) (
          flat_map (steady_pair w) (range 0 s)
          ++ map (backward_action peers cooldown) (range s (m - s)))
        ∙ ap (◌++◌ (batches op (map (forward_action peers warmup) (range 0 w)))) (
            batches-append op (flat_map (steady_pair w) (range 0 s))
              (map (backward_action peers cooldown) (range s (m - s)))) in
      let all_f : w + s ≡ m = omega arith in
      let all_b : s + (m - s) ≡ m = omega arith in
      (
        split forward
            ∙ rw (warm.0, pairs.0, cool.1, append-nil)
                (ap (λ (x : ℕ). range 0 w ++ range x s) (omega arith)
                  ∙ range-append 0 w s
                  ∙ ap (range 0) all_f),
        split backward
            ∙ rw (warm.1, pairs.1, cool.0)
                (ap (λ (x : ℕ). range 0 s ++ range x (m - s)) (omega arith)
                  ∙ range-append 0 s (m - s)
                  ∙ ap (range 0) all_b),
      )

  live-forwards :
      (phase : PipelineSchedulePhase) (from count live max_live : ℕ)
      → live ≤ max_live
      → live_loop (map (forward_action peers phase) (range from count)) live max_live
        ≡ ok (live + count, max max_live (live + count))
  unfolding live_loop
  live-forwards phase from zero live max_live h = ground arith
  live-forwards phase from (suc count) live max_live h =
      live-forwards phase (from + 1) count (live + 1) (max max_live (live + 1)) (omega arith)
      ∙ ap ok (ground arith)

  live-steady :
      (w from count live max_live : ℕ)
      → live < max_live
      → live_loop (flat_map (steady_pair w) (range from count)) live max_live ≡ ok (live, max_live)
  unfolding live_loop flat_map
  live-steady w from zero live max_live h = refl
  live-steady w from (suc count) live max_live h =
      ground (arith, live-steady w (from + 1) count live max_live)

  live-steady_first :
      (w from count live max_live : ℕ)
      → live ≤ max_live
      → 0 < count
      → live_loop (flat_map (steady_pair w) (range from count)) live max_live
        ≡ ok (live, max max_live (live + 1))
  unfolding live_loop flat_map
  live-steady_first w from zero live max_live h k = absurd (omega arith)
  live-steady_first w from (suc count) live max_live h k =
      ground (arith, live-steady w (from + 1) count live (max max_live (live + 1)))

  live-backwards :
      (phase : PipelineSchedulePhase) (from count live max_live : ℕ)
      → count ≤ live
      → live_loop (map (backward_action peers phase) (range from count)) live max_live
        ≡ ok (live - count, max_live)
  unfolding live_loop
  live-backwards phase from zero live max_live h = ground arith
  live-backwards phase from (suc count) live max_live h =
      ground (arith, live-backwards phase (from + 1) count (live - 1) max_live)

  -- The checker accepts the schedule, and finds one more live activation than warmup actions.
  pub max_live-schedule_loops :
      (w m : ℕ)
      → w < m
      → pipeline_schedule_max_live_activations (schedule_loops peers w m) ≡ ok (w + 1)
  unfolding pipeline_schedule_max_live_activations
  max_live-schedule_loops w m h =
      let s = m - w in
      let warm = live-forwards warmup 0 w 0 0 (omega arith) in
      let zero_add : 0 + w ≡ w = omega arith in
      rw
        (
          live_loop-append (map (forward_action peers warmup) (range 0 w))
              (flat_map (steady_pair w) (range 0 s)
                ++ map (backward_action peers cooldown) (range s (m - s)))
              0 0,
          warm,
          live_loop-append (flat_map (steady_pair w) (range 0 s))
              (map (backward_action peers cooldown) (range s (m - s))) (0 + w) (max 0 (0 + w)),
          live-steady_first w 0 s (0 + w) (max 0 (0 + w)) (omega arith) (omega arith),
          live-backwards cooldown s (m - s) (0 + w) (max (max 0 (0 + w)) (0 + w + 1)) (omega arith),
        )
        (ground arith)
