-- ===== src/Pipeline/Defs.antt =====
-- The data types and functions of pipeline.cc.
use mathlib.Core.List.{flat_map}
use cverl.Base.{
  ℕ, ◌+◌, ◌-◌, Bool, true, false, not, ◌&&◌, List, [], ◌∷◌, ◌++◌, map, ℤ, pos, minus_one, pos_part,
  sub_ℕ, ltb_ℤ, eqb_ℤ, ◌==◌, if◌then◌else◌, max, range, Result, ok, err, ◌>>=◌, ◌>>◌, throw_if,
  invalid_argument,
}
use cverl.Topology.Types.{Topology, ParallelRankInfo, global_rank}

pub record PipelinePeers : Type 0 where
  pub previous_rank : ℤ
  pub next_rank : ℤ
  pub is_first_stage : Bool
  pub is_last_stage : Bool

pub data PipelineSchedulePhase : Type 0 where
  warmup steady cooldown : PipelineSchedulePhase

pub data PipelineScheduleOp : Type 0 where
  forward backward : PipelineScheduleOp

pub record PipelineScheduleAction : Type 0 where
  pub phase : PipelineSchedulePhase
  pub op : PipelineScheduleOp
  pub micro_batch : ℕ
  pub recv_forward : Bool
  pub send_forward : Bool
  pub recv_backward : Bool
  pub send_backward : Bool

-- The neighbour's rank, or the initial -1 where there is none.
abbrev pub peer_rank : Bool → Result ℕ → Result ℤ
peer_rank true rank = ok minus_one
peer_rank false rank = do r ← rank; ok (pos r)

unfoldable pub pipeline_peers : Topology → ParallelRankInfo → Result PipelinePeers
pipeline_peers topology info = do
  let first = info.pipeline_rank == 0
  let last = eqb_ℤ (pos (info.pipeline_rank + 1)) topology.spec.parallel.pipeline_parallel
  previous ← peer_rank first (
      global_rank topology (pos info.data_rank) (sub_ℕ info.pipeline_rank 1) (pos info.context_rank)
        (pos info.tensor_rank) (pos info.expert_rank))
  next ← peer_rank last (
      global_rank topology (pos info.data_rank) (pos (info.pipeline_rank + 1))
        (pos info.context_rank) (pos info.tensor_rank) (pos info.expert_rank))
  ok (record {
    previous_rank = previous;
    next_rank = next;
    is_first_stage = first;
    is_last_stage = last;
  })

-- `std::min(pipeline_parallel - pipeline_rank - 1, micro_batches)`
unfoldable pub pipeline_warmup_micro_batches : Topology → ParallelRankInfo → ℤ
pipeline_warmup_micro_batches topology info =
    let p = topology.spec.parallel in
    let later = sub_ℕ (pos_part p.pipeline_parallel) (info.pipeline_rank + 1) in
    if ltb_ℤ p.micro_batches later then p.micro_batches else later

abbrev pub forward_action : PipelinePeers → PipelineSchedulePhase → ℕ → PipelineScheduleAction
forward_action peers phase mb = record {
  phase = phase;
  op = forward;
  micro_batch = mb;
  recv_forward = not peers.is_first_stage;
  send_forward = not peers.is_last_stage;
  recv_backward = false;
  send_backward = false;
}

abbrev pub backward_action : PipelinePeers → PipelineSchedulePhase → ℕ → PipelineScheduleAction
backward_action peers phase mb = record {
  phase = phase;
  op = backward;
  micro_batch = mb;
  recv_forward = false;
  send_forward = false;
  recv_backward = not peers.is_last_stage;
  send_backward = not peers.is_first_stage;
}

-- The three loops, for a stage with these peers.
abbrev pub schedule_loops : PipelinePeers → ℕ → ℕ → List PipelineScheduleAction
schedule_loops peers warmup_count micro_batches =
    let steady_count = micro_batches - warmup_count in
    map (forward_action peers warmup) (range 0 warmup_count)
    ++ (flat_map
          (λ i.
            forward_action peers steady (warmup_count + i) ∷ backward_action peers steady i ∷ [])
          (range 0 steady_count)
        ++ map (backward_action peers cooldown) (range steady_count (micro_batches - steady_count)))

-- The warmup count is not negative after `pipeline_peers`, which throws for a stage out of range.
unfoldable pub pipeline_1f1b_schedule :
    Topology → ParallelRankInfo → Result (List PipelineScheduleAction)
pipeline_1f1b_schedule topology info = do
  let p = topology.spec.parallel
  throw_if (ltb_ℤ p.micro_batches p.pipeline_parallel && ltb_ℤ (pos 1) p.pipeline_parallel)
      invalid_argument
  peers ← pipeline_peers topology info
  let warmup_count = pos_part (pipeline_warmup_micro_batches topology info)
  ok (schedule_loops peers warmup_count (pos_part p.micro_batches))

-- One round of the loop: the counters `live` and `max_live` before it, and after it.
abbrev pub live_step : PipelineScheduleOp → ℕ → ℕ → Result (ℕ × ℕ)
live_step forward live max_live = ok (live + 1, max max_live (live + 1))
live_step backward live max_live =
    if live == 0 then err invalid_argument else ok (live - 1, max_live)

unfoldable pub live_loop : List PipelineScheduleAction → ℕ → ℕ → Result (ℕ × ℕ)
live_loop [] live max_live = ok (live, max_live)
live_loop (action ∷ actions) live max_live =
    live_step action.op live max_live >>= λ counters. live_loop actions counters.0 counters.1

unfoldable pub pipeline_schedule_max_live_activations : List PipelineScheduleAction → Result ℕ
pipeline_schedule_max_live_activations actions = do
  counters ← live_loop actions 0 0
  throw_if (not (counters.0 == 0)) invalid_argument
  ok counters.1

-- What the four transfer functions do with a tensor of type `T`: return it, or call `Collectives`.
pub data Transfer {ℓ} (T : Type ℓ) : Type ℓ where
  keep : T → Transfer T
  recv_like : T → ℤ → Transfer T
  send : T → ℤ → Transfer T
  nothing : Transfer T

module _ {ℓ} {T : Type ℓ} where
  unfoldable pub pipeline_recv_forward : T → PipelinePeers → Transfer T
  pipeline_recv_forward like peers =
      if peers.is_first_stage then keep like else recv_like like peers.previous_rank

  unfoldable pub pipeline_send_forward : T → PipelinePeers → Transfer T
  pipeline_send_forward activation peers =
      if not peers.is_last_stage then send activation peers.next_rank else nothing

  unfoldable pub pipeline_recv_backward : T → PipelinePeers → Transfer T
  pipeline_recv_backward like peers =
      if peers.is_last_stage then keep like else recv_like like peers.next_rank

  unfoldable pub pipeline_send_backward : T → PipelinePeers → Transfer T
  pipeline_send_backward grad peers =
      if not peers.is_first_stage then send grad peers.previous_rank else nothing
