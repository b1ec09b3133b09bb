-- ===== src/Context/Tests.antt =====
-- A group of three ranks, a sequence of five rows, and the theorems applied to them.
use mathlib.Core.List.{flat_map}
use cverl.Base.{
  ℕ, zero, suc, ◌+◌, ◌%◌, ◌<◌, ◌≡◌, refl, ap, sym, ◌∙◌, true, List, [], ◌∷◌, ◌++◌, ◌-◌, ℤ, pos,
  pos_part, ◌==◌, ==_iff, if◌then◌else◌, range, Result, ok, ◌>>=◌, ok-injective, map_result,
  holds_below, holds_below_at, arith,
}
use cverl.Context.Defs.{
  Input, validate_context_rank, normalize_sequence_dim, context_parallel_padded_length,
  context_parallel_sequence_range, context_parallel_slice_padded, context_parallel_gather_padded,
  ContextParallelRingStep, member_at, context_parallel_ring_schedule,
  context_parallel_ring_exchange_autograd, group_index_from, context_parallel_group_index,
}
use cverl.Context.Slices.{gather_padded-slice_padded}
use cverl.Context.Ring.{held, Delivers, ring_exchange-schedule}
use cverl.Context.Schedule.{IsDistinct}

abbrev group : List ℕ
group = 5 ∷ 2 ∷ 9 ∷ []

abbrev place : ℕ → ℕ
place rank = if rank == 5 then 0 else if rank == 2 then 1 else 2

place_lem : (i : ℕ) → i < 3 → place (member_at group i) ≡ i
unfolding holds_below
place_lem i h =
    (==_iff (place (member_at group i)) i).0
      (holds_below_at 3 (λ x. place (member_at group x) == x) i refl h)

group-IsDistinct : IsDistinct group
group-IsDistinct i j hi hj same = sym (place_lem i hi) ∙ ap place same ∙ place_lem j hj

-- Where the block comes from that a rank holds after some hops.
abbrev origin : ℕ → ℕ → ℕ
origin i zero = i
origin i (suc hop) = origin ((i + 3 - 1) % 3) hop

abbrev block : ℕ → Input ℕ
block rank = record { defined = true; dim = 2; rows = rank ∷ (rank + 100) ∷ [] }

abbrev send_recv : ℕ → ℕ → Input ℕ → ℤ → ℤ → Input ℕ
send_recv i hop current send_rank recv_rank = block (member_at group (origin i (suc hop)))

group-Delivers : Delivers send_recv block group
group-Delivers i j hop hi hj from to =
    let back : (i + 3 - 1) % 3 ≡ j =
      group-IsDistinct ((i + 3 - 1) % 3) j (omega arith) hj (ap pos_part from) in
    ap (λ k. block (member_at group (origin k hop))) back ∙ by_hop hop
  where
    by_hop : (n : ℕ) → block (member_at group (origin j n)) ≡ held send_recv block group j n
    by_hop zero = refl
    by_hop (suc n) = refl

exchanged :
    context_parallel_ring_schedule group 2
    ≡ ok (
        record { step = 0; kv_rank = 2; send_rank = pos 9; recv_rank = pos 5 }
        ∷ record { step = 1; kv_rank = 5; send_rank = pos 9; recv_rank = pos 5 }
        ∷ record { step = 2; kv_rank = 9; send_rank = pos 9; recv_rank = pos 5 }
        ∷ [])
unfolding context_parallel_ring_schedule context_parallel_group_index group_index_from
exchanged = refl

ring_exchange-schedule_example :
    (schedule : List ContextParallelRingStep) × (context_parallel_ring_schedule group 2
      ≡ ok schedule)
    × (context_parallel_ring_exchange_autograd (send_recv 1) (block 2) group (pos 1) (pos 0)
        ≡ ok (record (block 2) { rows = flat_map (λ s. (block s.kv_rank).rows) schedule }))
ring_exchange-schedule_example =
    ring_exchange-schedule send_recv block group 1 0 group-IsDistinct group-Delivers (omega arith)
      (omega arith) refl (omega arith)

abbrev sequence : Input ℕ
sequence = record { defined = true; dim = 1; rows = 1 ∷ 2 ∷ 3 ∷ 4 ∷ 5 ∷ [] }

-- The first of two ranks, which gets the second slice from the other one.
abbrev all_gather : Input ℕ → List ℕ → Result (Input ℕ)
all_gather local ranks = ok (record local { rows = local.rows ++ (4 ∷ 5 ∷ 0 ∷ []) })

gathers :
    (slices : List (Input ℕ)) (local : Input ℕ)
    → map_result (λ k. context_parallel_slice_padded sequence (pos k) (pos 2) (pos 0) 0) (range 0 2)
      ≡ ok slices
    → context_parallel_slice_padded sequence (pos 0) (pos 2) (pos 0) 0 ≡ ok local
    → all_gather local (7 ∷ 8 ∷ []) ≡ ok (record local { rows = flat_map (λ s. s.rows) slices })
unfolding context_parallel_slice_padded validate_context_rank normalize_sequence_dim
    context_parallel_sequence_range context_parallel_padded_length map_result flat_map
gathers slices local h k =
    let mine : record sequence { rows = 1 ∷ 2 ∷ 3 ∷ [] } ≡ local = ok-injective k in
    let both : record sequence { rows = 1 ∷ 2 ∷ 3 ∷ [] }
          ∷ record sequence { rows = 4 ∷ 5 ∷ 0 ∷ [] }
          ∷ []
        ≡ slices =
      ok-injective h in
    ap (λ xs. ok (record local { rows = xs }))
      (ap (λ x. x.rows ++ (4 ∷ 5 ∷ 0 ∷ [])) (sym mine) ∙ ap (flat_map (λ s. s.rows)) both)

gather_padded-slice_padded_example :
    (context_parallel_slice_padded sequence (pos 0) (pos 2) (pos 0) 0 >>= λ local.
    context_parallel_gather_padded all_gather local (7 ∷ 8 ∷ []) (pos 0) (pos 5))
    ≡ ok sequence
gather_padded-slice_padded_example =
    gather_padded-slice_padded 0 all_gather (7 ∷ 8 ∷ []) 0 0 sequence refl (omega arith)
      (omega arith) (omega arith) gathers
