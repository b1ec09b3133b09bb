-- ===== src/Pipeline/Tests.antt =====
-- The schedules of a small cluster, and instances of the theorems about them.
use mathlib.Core.List.{flat_map}
use cverl.Base.{
  ℕ, ◌+◌, ◌-◌, ◌≡◌, refl, List, [], ◌∷◌, range, pos, ok, err, arith, false, invalid_argument,
}
use cverl.Topology.Types.{ParallelRankInfo, coordinates, rank_info}
use cverl.Topology.Info.{info_at, rank_info-info_at}
use cverl.Topology.Sample.{small, small_dims, small-IsValid}
use cverl.Pipeline.Defs.{
  PipelinePeers, PipelineScheduleAction, forward, backward, warmup, pipeline_peers,
  pipeline_1f1b_schedule, pipeline_schedule_max_live_activations, live_loop, forward_action,
  schedule_loops,
}
use cverl.Pipeline.Schedule.{batches}
use cverl.Pipeline.Channels.{flagged}
use cverl.Pipeline.Neighbours.{schedule-completes, neighbours}

abbrev first_info : ParallelRankInfo
first_info = info_at small_dims 0 (coordinates small_dims 0)

first_info_lem : rank_info small (pos 0) ≡ ok first_info
first_info_lem = rank_info-info_at small small-IsValid 0 (omega arith)

abbrev middle : PipelinePeers
middle = record {
  previous_rank = pos 0;
  next_rank = pos 2;
  is_first_stage = false;
  is_last_stage = false;
}

-- Two warmups, then pairs, then two backwards: three activations at most.
peak : pipeline_schedule_max_live_activations (schedule_loops middle 2 5) ≡ ok 3
unfolding pipeline_schedule_max_live_activations live_loop flat_map
peak = refl

unmatched :
    pipeline_schedule_max_live_activations (forward_action middle warmup 0 ∷ [])
    ≡ err invalid_argument
unfolding pipeline_schedule_max_live_activations live_loop
unmatched = refl

schedule-completes_example :
    (actions : List PipelineScheduleAction) × (pipeline_1f1b_schedule small first_info ≡ ok actions)
    × (batches forward actions ≡ range 0 4)
    × (batches backward actions ≡ range 0 4)
    × (pipeline_schedule_max_live_activations actions ≡ ok (2 - first_info.pipeline_rank))
schedule-completes_example =
    schedule-completes small small-IsValid 0 (omega arith) {info = first_info} first_info_lem

neighbours_example :
    (next : ℕ) × (other : ParallelRankInfo) × (rank_info small (pos next) ≡ ok other)
    × (other.pipeline_rank ≡ first_info.pipeline_rank + 1)
    × ((peers : PipelinePeers) × (pipeline_peers small first_info ≡ ok peers)
        × (peers.next_rank ≡ pos next))
    × ((peers : PipelinePeers) × (pipeline_peers small other ≡ ok peers)
        × (peers.previous_rank ≡ pos 0))
    × ((actions : List PipelineScheduleAction) × (others : List PipelineScheduleAction)
        × (pipeline_1f1b_schedule small first_info ≡ ok actions)
        × (pipeline_1f1b_schedule small other ≡ ok others)
        × (flagged (λ a. a.send_forward) actions ≡ range 0 4)
        × (flagged (λ a. a.recv_forward) others ≡ range 0 4)
        × (flagged (λ a. a.send_backward) others ≡ range 0 4)
        × (flagged (λ a. a.recv_backward) actions ≡ range 0 4))
unfolding coordinates
neighbours_example =
    neighbours small small-IsValid 0 (omega arith) {info = first_info} first_info_lem (omega arith)
