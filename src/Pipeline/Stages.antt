-- ===== src/Pipeline/Stages.antt =====
-- The schedules of the stages of a validated topology, and how neighbouring stages fit together.
use cverl.Base.{
  ℕ, ◌+◌, ◌-◌, ◌≤◌, ◌<◌, ◌≡◌, inl, inr, false, ◌&&◌, ℤ, pos, minus_one, pos_part, sub_ℕ, ltb_ℤ,
  eqb_ℤ, ◌==◌, if◌then◌else◌, Bool-cases, ok, arith,
}
use cverl.Topology.Types.{ParallelDims, Topology, ParallelRankInfo, rank_number, global_rank}
use cverl.Topology.Valid.{IsValid}
use cverl.Topology.Ranks.{IsCoordinate, global_rank-IsCoordinate}
use cverl.Pipeline.Defs.{
  PipelinePeers, peer_rank, pipeline_peers, pipeline_warmup_micro_batches, pipeline_1f1b_schedule,
  schedule_loops,
}

is_last_stage_lem :
    (s : ℕ) (stages : ℤ)
    → s < pos_part stages
    → eqb_ℤ (pos (s + 1)) stages ≡ (s + 1 == pos_part stages)
is_last_stage_lem s stages h = ground arith

previous_stage_lem : (s : ℕ) → (s == 0) ≡ false → sub_ℕ s 1 ≡ pos (s - 1)
previous_stage_lem s h = ground arith

not_last : (s n : ℕ) → (s + 1 == n) ≡ false → s < n → s + 1 < n
not_last s n h lt = ground arith

warmup_lem :
    (s stages : ℕ) (mb : ℤ)
    → (1 < stages → stages ≤ pos_part mb)
    → 0 < pos_part mb
    → s < stages
    → pos_part (if ltb_ℤ mb (sub_ℕ stages (s + 1)) then mb else sub_ℕ stages (s + 1))
      ≡ stages - (s + 1)
warmup_lem s stages mb h k l = ground arith

enough_lem :
    (stages mb : ℤ)
    → (1 < pos_part stages → pos_part stages ≤ pos_part mb)
    → 0 < pos_part stages
    → 0 < pos_part mb
    → (ltb_ℤ mb stages && ltb_ℤ (pos 1) stages) ≡ false
enough_lem stages mb h k l = ground arith

module _ (topology : Topology) (v : IsValid topology.spec) where
  abbrev p : ParallelDims
  p = topology.spec.parallel

  abbrev stages : ℕ
  stages = pos_part p.pipeline_parallel

  -- The peers of the stage at a coordinate.
  abbrev pub peers_at : ℕ → ℕ → ℕ → ℕ → ℕ → PipelinePeers
  peers_at d s c t e = record {
    previous_rank = if s == 0 then minus_one else pos (rank_number p d (s - 1) c t e);
    next_rank = if s + 1 == stages then minus_one else pos (rank_number p d (s + 1) c t e);
    is_first_stage = s == 0;
    is_last_stage = s + 1 == stages;
  }

  module _ (info : ParallelRankInfo)
      (home : IsCoordinate p info.data_rank info.pipeline_rank info.context_rank info.tensor_rank
        info.expert_rank) where
    abbrev peers : PipelinePeers
    peers =
        peers_at info.data_rank info.pipeline_rank info.context_rank info.tensor_rank
          info.expert_rank

    previous_peer :
        peer_rank (info.pipeline_rank == 0) (
          global_rank topology
            (pos info.data_rank)
            (sub_ℕ info.pipeline_rank 1)
            (pos info.context_rank)
            (pos info.tensor_rank)
            (pos info.expert_rank))
        ≡ ok peers.previous_rank
    previous_peer = elim (Bool-cases (info.pipeline_rank == 0)) [
      | inl first ↦ rw first
      | inr later ↦ rw (
        later,
        previous_stage_lem info.pipeline_rank later,
        global_rank-IsCoordinate topology info.data_rank (info.pipeline_rank - 1) info.context_rank
            info.tensor_rank info.expert_rank (omega (arith, home)),
      )
    ]

    next_peer :
        peer_rank (info.pipeline_rank + 1 == stages) (
          global_rank topology
            (pos info.data_rank)
            (pos (info.pipeline_rank + 1))
            (pos info.context_rank)
            (pos info.tensor_rank)
            (pos info.expert_rank))
        ≡ ok peers.next_rank
    next_peer = elim (Bool-cases (info.pipeline_rank + 1 == stages)) [
      | inl last ↦ rw last
      | inr earlier ↦ rw (
        earlier,
        global_rank-IsCoordinate topology info.data_rank (info.pipeline_rank + 1) info.context_rank
            info.tensor_rank info.expert_rank
            (record {
              data_lt = home.data_lt;
              pipeline_lt = not_last info.pipeline_rank stages earlier home.pipeline_lt;
              context_lt = home.context_lt;
              tensor_lt = home.tensor_lt;
              expert_lt = home.expert_lt;
            }),
      )
    ]

    pub pipeline_peers-peers_at : pipeline_peers topology info ≡ ok peers
    unfolding pipeline_peers
    pipeline_peers-peers_at = rw (
      is_last_stage_lem info.pipeline_rank p.pipeline_parallel home.pipeline_lt,
      previous_peer,
      next_peer,
    )

    pub warmup_count :
        pos_part (pipeline_warmup_micro_batches topology info) ≡ stages - (info.pipeline_rank + 1)
    unfolding pipeline_warmup_micro_batches
    warmup_count =
        warmup_lem info.pipeline_rank stages p.micro_batches v.enough_micro v.micro_pos
          home.pipeline_lt

    pub pipeline_1f1b_schedule-schedule_loops :
        pipeline_1f1b_schedule topology info
        ≡ ok (schedule_loops peers (stages - (info.pipeline_rank + 1)) (pos_part p.micro_batches))
    unfolding pipeline_1f1b_schedule
    pipeline_1f1b_schedule-schedule_loops = rw (
      enough_lem p.pipeline_parallel p.micro_batches v.enough_micro v.pipeline_pos v.micro_pos,
      pipeline_peers-peers_at,
      warmup_count,
    )
