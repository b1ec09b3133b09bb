-- ===== src/Topology/Tests.antt =====
-- Runs of the rank functions on one small cluster, and instances of the theorems about them.
use cverl.Base.{
  ℕ, ◌+◌, ◌<◌, ◌≡◌, ◌↔◌, refl, ◌⊎◌, pos, minus_one, some, get_elem?, ok, err, out_of_range,
  invalid_argument, arith,
}
use cverl.Topology.Types.{
  Topology, ParallelRankInfo, LayerRange, validate, make_topology, global_rank, rank_info,
  pipeline_layer_range, require_positive, coordinates, default_parallel_dims,
}
use cverl.Topology.Valid.{IsValid, make_topology_iff}
use cverl.Topology.Ranks.{IsCoordinate}
use cverl.Topology.Info.{info_at, rank_info-info_at}
use cverl.Topology.Groups.{
  tensor_axis, group, place, rank_info-global_rank, global_rank-rank_info, group_partition,
}
use cverl.Topology.Sample.{small_dims, small_spec, small, small-IsValid}
use cverl.Topology.Layers.{pipeline_layer_range-tiles, layer_owner, Holds}

accepts : make_topology small_spec ≡ ok small
unfolding make_topology validate require_positive
accepts = refl

rejects_rank : make_topology (record small_spec { rank = pos 8 }) ≡ err invalid_argument
unfolding make_topology validate require_positive
rejects_rank = refl

-- On hardware that keeps the lowest 64 bits, an overflowing product passes for the world size.
overflow :
    validate (record small_spec {
      world_size = pos 2;
      rank = pos 0;
      parallel = record default_parallel_dims {
        data_parallel = pos 3;
        context_parallel = pos 6148914691236517206;
      };
    })
    ≡ ok tt
unfolding validate require_positive
overflow = refl

ranks :
    (global_rank small (pos 1) (pos 0) (pos 0) (pos 1) (pos 0) ≡ ok 5)
    × (global_rank small (pos 1) (pos 0) (pos 0) minus_one (pos 0) ≡ err out_of_range)
unfolding global_rank
ranks = (refl, refl)

make_topology_iff_example :
    ((t : Topology) × (make_topology small_spec ≡ ok t) × (t.spec ≡ small_spec))
    ↔ IsValid small_spec
make_topology_iff_example = make_topology_iff small_spec (omega arith)

rank_info-global_rank_example :
    (info : ParallelRankInfo) × (rank_info small (pos 5) ≡ ok info)
    × (info.rank ≡ 5)
    × IsCoordinate small_dims info.data_rank info.pipeline_rank info.context_rank info.tensor_rank
        info.expert_rank
    × (global_rank small
          (pos info.data_rank)
          (pos info.pipeline_rank)
          (pos info.context_rank)
          (pos info.tensor_rank)
          (pos info.expert_rank)
        ≡ ok 5)
rank_info-global_rank_example = rank_info-global_rank small small-IsValid 5 (omega arith)

global_rank-rank_info_example :
    (r : ℕ) × (info : ParallelRankInfo) × (global_rank small (pos 1) (pos 0) (pos 0) (pos 1) (pos 0)
      ≡ ok r)
    × (r < 8)
    × (rank_info small (pos r) ≡ ok info)
    × (info.data_rank ≡ 1)
    × (info.pipeline_rank ≡ 0)
    × (info.context_rank ≡ 0)
    × (info.tensor_rank ≡ 1)
    × (info.expert_rank ≡ 0)
global_rank-rank_info_example = global_rank-rank_info small small-IsValid 1 0 0 1 0 (omega arith)

abbrev info_five : ParallelRankInfo
info_five = info_at small_dims 5 (coordinates small_dims 5)

group_partition_example :
    (get_elem? (group tensor_axis info_five) (place tensor_axis info_five) ≡ some 5)
    × ((i x : ℕ)
        → get_elem? (group tensor_axis info_five) i ≡ some x
        → (other : ParallelRankInfo) × (rank_info small (pos x) ≡ ok other)
          × (group tensor_axis other ≡ group tensor_axis info_five)
          × (place tensor_axis other ≡ i))
group_partition_example =
    group_partition small small-IsValid 5 (omega arith) tensor_axis
      (rank_info-info_at small small-IsValid 5 (omega arith))

pipeline_layer_range-tiles_example :
    (range : LayerRange) × (pipeline_layer_range small (pos 25) (pos 0) ≡ ok range)
    × (◌≡◌ {A = ℕ} 0 0 → range.begin ≡ 0)
    × (0 + 1 ≡ 2 → range.end ≡ 25)
    × ((next : LayerRange)
        → pipeline_layer_range small (pos 25) (pos (0 + 1)) ≡ ok next
        → 0 + 1 < 2
        → next.begin ≡ range.end)
    × ((range.end ≡ range.begin + 12) ⊎ (range.end ≡ range.begin + 12 + 1))
pipeline_layer_range-tiles_example =
    pipeline_layer_range-tiles small small-IsValid 25 0 (omega arith)

layer_owner_example :
    (s : ℕ) × Holds small small-IsValid 25 12 s
    × ((s' : ℕ) → Holds small small-IsValid 25 12 s' → s' ≡ s)
layer_owner_example = layer_owner small small-IsValid 25 12 (omega arith)
