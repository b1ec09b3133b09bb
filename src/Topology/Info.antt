-- ===== src/Topology/Info.antt =====
-- `rank_info` computed: on a validated topology it does not throw, and its groups are the numbers
-- of the coordinates that differ in one place.
use cverl.Base.{
  ℕ, ◌+◌, ◌%◌, ◌<◌, ◌≡◌, map, pos, pos_part, range, ok, All, All-range, All-map, All-flat_map,
  map_result-All, arith,
}
use cverl.Topology.Types.{
  ParallelDims, Topology, ParallelRankInfo, Coordinates, ModelIndex, rank_number, coordinates,
  global_rank, rank_info, model_indices, sequence_block_begin,
}
use cverl.Topology.Radix.{block_le}
use cverl.Topology.Valid.{IsValid}
use cverl.Topology.Ranks.{
  IsCoordinate, is_outside-pos, global_rank-IsCoordinate, coordinates-IsCoordinate,
}

-- The groups of the rank at a coordinate.
abbrev pub info_at : ParallelDims → ℕ → Coordinates → ParallelRankInfo
info_at p rank at = record {
  rank = rank;
  data_rank = at.data_rank;
  tensor_rank = at.tensor_rank;
  pipeline_rank = at.pipeline_rank;
  context_rank = at.context_rank;
  expert_rank = at.expert_rank;
  sequence_rank = at.tensor_rank % pos_part p.sequence_parallel;
  data_group =
      map (λ i. rank_number p i at.pipeline_rank at.context_rank at.tensor_rank at.expert_rank)
        (range 0 (pos_part p.data_parallel));
  tensor_group =
      map (λ i. rank_number p at.data_rank at.pipeline_rank at.context_rank i at.expert_rank)
        (range 0 (pos_part p.tensor_parallel));
  pipeline_group =
      map (λ i. rank_number p at.data_rank i at.context_rank at.tensor_rank at.expert_rank)
        (range 0 (pos_part p.pipeline_parallel));
  context_group =
      map (λ i. rank_number p at.data_rank at.pipeline_rank i at.tensor_rank at.expert_rank)
        (range 0 (pos_part p.context_parallel));
  expert_group =
      map (λ i. rank_number p at.data_rank at.pipeline_rank at.context_rank at.tensor_rank i)
        (range 0 (pos_part p.expert_parallel));
  sequence_group =
      map (λ i. rank_number p at.data_rank at.pipeline_rank at.context_rank i at.expert_rank)
        (range (sequence_block_begin p at.tensor_rank) (pos_part p.sequence_parallel));
  model_group =
      map (λ (i : ModelIndex). rank_number p at.data_rank i.pp i.cp i.t i.e) (model_indices p);
}

module _ (topology : Topology) (v : IsValid topology.spec) (r : ℕ)
    (lt : r < pos_part topology.spec.world_size) where
  abbrev dims : ParallelDims
  dims = topology.spec.parallel

  abbrev at : Coordinates
  at = coordinates dims r

  home :
      IsCoordinate dims at.data_rank at.pipeline_rank at.context_rank at.tensor_rank at.expert_rank
  home = coordinates-IsCoordinate topology v r lt

  -- The block of the sequence group lies within the tensor dimension.
  pub sequence_lt :
      (i : ℕ)
      → i < sequence_block_begin dims at.tensor_rank + pos_part dims.sequence_parallel
      → i < pos_part dims.tensor_parallel
  sequence_lt i h = omega (
    arith,
    block_le at.tensor_rank (pos_part dims.sequence_parallel) (pos_part dims.tensor_parallel)
        v.sequence_pos home.tensor_lt v.sequence_divides,
  )

  model_indices-All :
      All
        (λ (i : ModelIndex).
          global_rank topology (pos at.data_rank) (pos i.pp) (pos i.cp) (pos i.t) (pos i.e)
          ≡ ok (rank_number dims at.data_rank i.pp i.cp i.t i.e))
        (model_indices dims)
  model_indices-All = All-flat_map _ _ _ (
      All-range _ 0 _ λ pp _ pp_lt. All-flat_map _ _ _ (
        All-range _ 0 _ λ c _ c_lt. All-flat_map _ _ _ (
          All-range _ 0 _ λ t _ t_lt. All-map _ _ _ (
            All-range _ 0 _ λ e _ e_lt.
              global_rank-IsCoordinate topology at.data_rank pp c t e (record {
                data_lt = home.data_lt;
                pipeline_lt = omega arith;
                context_lt = omega arith;
                tensor_lt = omega arith;
                expert_lt = omega arith;
              })))))

  -- On a rank of the world rank_info returns the record of the coordinate.
  pub rank_info-info_at : rank_info topology (pos r) ≡ ok (info_at dims r at)
  unfolding rank_info
  rank_info-info_at = rw (
    is_outside-pos r topology.spec.world_size lt,
    map_result-All _
        (λ i. rank_number dims i at.pipeline_rank at.context_rank at.tensor_rank at.expert_rank)
        (range 0 (pos_part dims.data_parallel))
        (All-range _ 0 _ λ i _ h.
          global_rank-IsCoordinate topology i at.pipeline_rank at.context_rank at.tensor_rank
            at.expert_rank (omega (arith, home))),
    map_result-All _
        (λ i. rank_number dims at.data_rank at.pipeline_rank at.context_rank i at.expert_rank)
        (range 0 (pos_part dims.tensor_parallel))
        (All-range _ 0 _ λ i _ h.
          global_rank-IsCoordinate topology at.data_rank at.pipeline_rank at.context_rank i
            at.expert_rank (omega (arith, home))),
    map_result-All _
        (λ i. rank_number dims at.data_rank i at.context_rank at.tensor_rank at.expert_rank)
        (range 0 (pos_part dims.pipeline_parallel))
        (All-range _ 0 _ λ i _ h.
          global_rank-IsCoordinate topology at.data_rank i at.context_rank at.tensor_rank
            at.expert_rank (omega (arith, home))),
    map_result-All _
        (λ i. rank_number dims at.data_rank at.pipeline_rank i at.tensor_rank at.expert_rank)
        (range 0 (pos_part dims.context_parallel))
        (All-range _ 0 _ λ i _ h.
          global_rank-IsCoordinate topology at.data_rank at.pipeline_rank i at.tensor_rank
            at.expert_rank (omega (arith, home))),
    map_result-All _
        (λ i. rank_number dims at.data_rank at.pipeline_rank at.context_rank at.tensor_rank i)
        (range 0 (pos_part dims.expert_parallel))
        (All-range _ 0 _ λ i _ h.
          global_rank-IsCoordinate topology at.data_rank at.pipeline_rank at.context_rank
            at.tensor_rank i (omega (arith, home))),
    map_result-All _
        (λ i. rank_number dims at.data_rank at.pipeline_rank at.context_rank i at.expert_rank)
        (range (sequence_block_begin dims at.tensor_rank) (pos_part dims.sequence_parallel))
        (All-range _ _ _ λ i _ h.
          global_rank-IsCoordinate topology at.data_rank at.pipeline_rank at.context_rank i
            at.expert_rank (omega (arith, home, sequence_lt i h))),
    map_result-All _ (λ (i : ModelIndex). rank_number dims at.data_rank i.pp i.cp i.t i.e)
        (model_indices dims) model_indices-All,
  )
