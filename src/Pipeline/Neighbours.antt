-- ===== src/Pipeline/Neighbours.antt =====
-- Every stage of a validated topology has a schedule that runs each micro-batch forward and
-- backward, and the schedules of neighbouring stages agree on what passes between them.
use cverl.Base.{
  ℕ, ◌+◌, ◌-◌, ◌≤◌, ◌<◌, ◌≡◌, refl, ap, sym, subst, ◌∙◌, Bool, false, List, range, pos, pos_part,
  ◌==◌, ok-injective, ok, arith,
}
use cverl.Topology.Types.{
  ParallelDims, Topology, ParallelRankInfo, rank_number, coordinates, rank_info,
}
use cverl.Topology.Valid.{IsValid}
use cverl.Topology.Ranks.{IsCoordinate, coordinates-IsCoordinate, rank_number-coordinates}
use cverl.Topology.Info.{info_at, rank_info-info_at}
use cverl.Topology.Groups.{rank_info-rank_number, coordinate}
use cverl.Pipeline.Defs.{
  PipelinePeers, forward, backward, PipelineScheduleAction, pipeline_peers, pipeline_1f1b_schedule,
  schedule_loops, pipeline_schedule_max_live_activations,
}
use cverl.Pipeline.Schedule.{batches, batches-schedule_loops, max_live-schedule_loops}
use cverl.Pipeline.Channels.{flagged, link, schedule_loops-Transfers}
use cverl.Pipeline.Stages.{peers_at, pipeline_peers-peers_at, pipeline_1f1b_schedule-schedule_loops}

module _ (topology : Topology) (v : IsValid topology.spec) where
  abbrev p : ParallelDims
  p = topology.spec.parallel

  abbrev stages : ℕ
  stages = pos_part p.pipeline_parallel

  abbrev micro_batches : ℕ
  micro_batches = pos_part p.micro_batches

  warmup_le : (s : ℕ) → s < stages → stages - (s + 1) ≤ micro_batches
  warmup_le s h = grind (arith, v.enough_micro, v.micro_pos)

  warmup_lt : (s : ℕ) → s < stages → stages - (s + 1) < micro_batches
  warmup_lt s h = grind (arith, v.enough_micro, v.micro_pos)

  abbrev Home : ParallelRankInfo → Type 0
  Home info =
      IsCoordinate p info.data_rank info.pipeline_rank info.context_rank info.tensor_rank
        info.expert_rank

  module _ (r : ℕ) (lt : r < pos_part topology.spec.world_size) {info : ParallelRankInfo}
      (h : rank_info topology (pos r) ≡ ok info) where
    same : info ≡ info_at p r (coordinates p r)
    same = ok-injective (sym h ∙ rank_info-info_at topology v r lt)

    home : Home info
    home = subst Home (sym same) (coordinates-IsCoordinate topology v r lt)

    number :
        rank_number p info.data_rank info.pipeline_rank info.context_rank info.tensor_rank
          info.expert_rank
        ≡ r
    number =
        ap
          (λ (i : ParallelRankInfo).
            rank_number p i.data_rank i.pipeline_rank i.context_rank i.tensor_rank i.expert_rank)
          same
        ∙ rank_number-coordinates p r

    -- Every rank of a validated topology gets a schedule. It runs the micro-batches 0, 1, ... up to
    -- the configured number forward, each once and in order, and backward, each once and in
    -- order; the checker accepts it, and its peak of live activations is the number of stages
    -- from this one to the last.
    pub schedule-completes :
        (actions : List PipelineScheduleAction) × (pipeline_1f1b_schedule topology info
          ≡ ok actions)
        × (batches forward actions ≡ range 0 micro_batches)
        × (batches backward actions ≡ range 0 micro_batches)
        × (pipeline_schedule_max_live_activations actions ≡ ok (stages - info.pipeline_rank))
    schedule-completes =
        let s = info.pipeline_rank in
        let w = stages - (s + 1) in
        let peers =
          peers_at topology v info.data_rank s info.context_rank info.tensor_rank
            info.expert_rank in
        let all = batches-schedule_loops peers w micro_batches (warmup_le s home.pipeline_lt) in
        let peak : w + 1 ≡ stages - s = omega (arith, home) in
        (
          schedule_loops peers w micro_batches,
          pipeline_1f1b_schedule-schedule_loops topology v info home,
          all.0,
          all.1,
          max_live-schedule_loops peers w micro_batches (warmup_lt s home.pipeline_lt) ∙ ap ok peak,
        )

    -- The rank whose next peer is asked for: its neighbour in the pipeline dimension.
    abbrev next_info : ParallelRankInfo
    next_info =
        info_at p
          (rank_number p info.data_rank (info.pipeline_rank + 1) info.context_rank info.tensor_rank
            info.expert_rank)
          (coordinate topology v info.data_rank (info.pipeline_rank + 1) info.context_rank
            info.tensor_rank info.expert_rank)

    next_IsCoordinate : info.pipeline_rank + 1 < stages → Home next_info
    next_IsCoordinate later = record {
      data_lt = home.data_lt;
      pipeline_lt = later;
      context_lt = home.context_lt;
      tensor_lt = home.tensor_lt;
      expert_lt = home.expert_lt;
    }

    -- A stage before the last has a next peer, a rank of the following stage, whose previous peer
    -- is this rank; and the micro-batches that this stage sends forward are, in order, those that
    -- the next one receives, and those that it gets gradients for are, in order, those that
    -- the next one sends back.
    pub neighbours :
        info.pipeline_rank + 1 < stages
        → (next : ℕ) × (other : ParallelRankInfo) × (rank_info topology (pos next) ≡ ok other)
          × (other.pipeline_rank ≡ info.pipeline_rank + 1)
          × ((peers : PipelinePeers) × (pipeline_peers topology info ≡ ok peers)
              × (peers.next_rank ≡ pos next))
          × ((peers : PipelinePeers) × (pipeline_peers topology other ≡ ok peers)
              × (peers.previous_rank ≡ pos r))
          × ((actions : List PipelineScheduleAction) × (others : List PipelineScheduleAction)
              × (pipeline_1f1b_schedule topology info ≡ ok actions)
              × (pipeline_1f1b_schedule topology other ≡ ok others)
              × (flagged (λ a. a.send_forward) actions ≡ range 0 micro_batches)
              × (flagged (λ a. a.recv_forward) others ≡ range 0 micro_batches)
              × (flagged (λ a. a.send_backward) others ≡ range 0 micro_batches)
              × (flagged (λ a. a.recv_backward) actions ≡ range 0 micro_batches))
    neighbours later =
        let s = info.pipeline_rank in
        let here =
          peers_at topology v info.data_rank s info.context_rank info.tensor_rank
            info.expert_rank in
        let there =
          peers_at topology v info.data_rank (s + 1) info.context_rank info.tensor_rank
            info.expert_rank in
        let next_home = next_IsCoordinate later in
        let w = stages - (s + 1) in
        let w' = stages - (s + 1 + 1) in
        let sent = schedule_loops-Transfers here w micro_batches (warmup_le s home.pipeline_lt) in
        let taken = schedule_loops-Transfers there w' micro_batches (warmup_le (s + 1) later) in
        let middle : (s + 1 == stages) ≡ false = ground arith in
        let not_first : (s + 1 == 0) ≡ false = ground arith in
        let back : s + 1 - 1 ≡ s = omega arith in
        let from_here = ap (λ (b : Bool). link b micro_batches) middle in
        let from_there = ap (λ (b : Bool). link b micro_batches) not_first in
        (
          rank_number p info.data_rank (s + 1) info.context_rank info.tensor_rank info.expert_rank,
          next_info,
          rank_info-rank_number topology v info.data_rank (s + 1) info.context_rank info.tensor_rank
              info.expert_rank next_home,
          refl,
          (here, pipeline_peers-peers_at topology v info home, rw middle),
          (
            there,
            pipeline_peers-peers_at topology v next_info next_home,
            rw (not_first, back) (ap pos number),
          ),
          (
            schedule_loops here w micro_batches,
            schedule_loops there w' micro_batches,
            pipeline_1f1b_schedule-schedule_loops topology v info home,
            pipeline_1f1b_schedule-schedule_loops topology v next_info next_home,
            sent.send_forwards ∙ from_here,
            taken.recv_forwards ∙ from_there,
            taken.send_backwards ∙ from_there,
            sent.recv_backwards ∙ from_here,
          ),
        )
