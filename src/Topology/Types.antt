-- ===== src/Topology/Types.antt =====
-- The data types of topology.h, and the member functions of `Topology` that compute ranks.
use Prim.Native.String.{String}
use mathlib.Core.List.{flat_map}
use cverl.Base.{
  ℕ, ◌+◌, ◌*◌, ◌/◌, ◌%◌, min, Bool, not, ◌&&◌, ◌||◌, List, map, ℤ, pos, pos_part, ◌*ℤ◌, wrap_int64,
  ltb, ltb_ℤ, leb_ℤ, eqb_ℤ, ◌==◌, if◌then◌else◌, range, Result, ok, err, ◌>>=◌, ◌>>◌, throw_if,
  map_result, invalid_argument, out_of_range,
}

pub data DtypePolicy : Type 0 where
  float32 float16 bfloat16 : DtypePolicy

pub record ParallelDims : Type 0 where
  pub data_parallel : ℤ
  pub tensor_parallel : ℤ
  pub pipeline_parallel : ℤ
  pub context_parallel : ℤ
  pub expert_parallel : ℤ
  pub sequence_parallel : ℤ
  pub micro_batches : ℤ

pub record MemoryPolicy : Type 0 where
  pub param_dtype : DtypePolicy
  pub reduce_dtype : DtypePolicy
  pub activation_checkpointing : Bool
  pub overlap_grad_reduce : Bool
  pub overlap_param_gather : Bool
  pub shard_optimizer : Bool
  pub shard_gradients : Bool
  pub cpu_optimizer_offload : Bool
  pub cpu_param_offload : Bool
  pub max_activation_bytes_per_rank : ℤ

pub record NetworkPolicy : Type 0 where
  pub socket_ifnames : List String
  pub ib_hcas : List String
  pub nccl_topo_file : String
  pub nccl_ib_gid_index : ℤ
  pub enable_nvls : Bool
  pub enable_p2p : Bool
  pub enable_ib : Bool

pub record ClusterSpec : Type 0 where
  pub world_size : ℤ
  pub rank : ℤ
  pub local_world_size : ℤ
  pub local_rank : ℤ
  pub node_rank : ℤ
  pub gpus_per_node : ℤ
  pub parallel : ParallelDims
  pub memory : MemoryPolicy
  pub network : NetworkPolicy

pub record ParallelRankInfo : Type 0 where
  pub rank : ℕ
  pub data_rank : ℕ
  pub tensor_rank : ℕ
  pub pipeline_rank : ℕ
  pub context_rank : ℕ
  pub expert_rank : ℕ
  pub sequence_rank : ℕ
  pub data_group : List ℕ
  pub tensor_group : List ℕ
  pub pipeline_group : List ℕ
  pub context_group : List ℕ
  pub expert_group : List ℕ
  pub sequence_group : List ℕ
  pub model_group : List ℕ

pub record LayerRange : Type 0 where
  pub begin : ℕ
  pub end : ℕ

pub record Topology : Type 0 where
  pub spec : ClusterSpec

-- The default member initialisers of topology.h.
abbrev pub default_parallel_dims : ParallelDims
default_parallel_dims = record {
  data_parallel = pos 1;
  tensor_parallel = pos 1;
  pipeline_parallel = pos 1;
  context_parallel = pos 1;
  expert_parallel = pos 1;
  sequence_parallel = pos 1;
  micro_batches = pos 1;
}

unfoldable pub require_positive : ℤ → Result (Unit {0})
require_positive value = throw_if (leb_ℤ value (pos 0)) invalid_argument

-- `x < 0 || x >= n`
abbrev pub is_outside : ℤ → ℤ → Bool
is_outside x n = ltb_ℤ x (pos 0) || leb_ℤ n x

-- `%` on operands that have been checked to be positive.
abbrev pub rem : ℤ → ℤ → ℕ
rem a b = pos_part a % pos_part b

-- The product of the dimensions is an int64_t: wrapping it once keeps the bits that wrapping each
-- multiplication keeps.
unfoldable pub validate : ClusterSpec → Result (Unit {0})
validate s = do
  let p = s.parallel
  require_positive s.world_size
  require_positive s.local_world_size
  require_positive s.gpus_per_node
  require_positive p.data_parallel
  require_positive p.tensor_parallel
  require_positive p.pipeline_parallel
  require_positive p.context_parallel
  require_positive p.expert_parallel
  require_positive p.sequence_parallel
  require_positive p.micro_batches
  throw_if (is_outside s.rank s.world_size) invalid_argument
  throw_if (is_outside s.local_rank s.local_world_size) invalid_argument
  throw_if
      (not (
        eqb_ℤ s.world_size (
          wrap_int64 (
            p.data_parallel *ℤ p.pipeline_parallel *ℤ p.context_parallel *ℤ p.tensor_parallel
            *ℤ p.expert_parallel))))
      invalid_argument
  throw_if (ltb_ℤ (pos 1) p.pipeline_parallel && ltb_ℤ p.micro_batches p.pipeline_parallel)
      invalid_argument
  throw_if (ltb_ℤ s.gpus_per_node p.tensor_parallel) invalid_argument
  throw_if
      (ltb_ℤ p.tensor_parallel p.sequence_parallel
        || not (rem p.tensor_parallel p.sequence_parallel == 0))
      invalid_argument
  throw_if (ltb_ℤ s.gpus_per_node s.local_world_size) invalid_argument

-- The constructor.
unfoldable pub make_topology : ClusterSpec → Result Topology
make_topology spec = do validate spec; ok (record { spec = spec })

-- The mixed-radix number of a coordinate.
abbrev pub rank_number : ParallelDims → ℕ → ℕ → ℕ → ℕ → ℕ → ℕ
rank_number p d pp c t e =
    ((((d * pos_part p.pipeline_parallel) + pp) * pos_part p.context_parallel + c)
          * pos_part p.tensor_parallel
        + t)
      * pos_part p.expert_parallel
    + e

unfoldable pub global_rank : Topology → ℤ → ℤ → ℤ → ℤ → ℤ → Result ℕ
global_rank topology data_rank pipeline_rank context_rank tensor_rank expert_rank =
    let p = topology.spec.parallel in
    if is_outside data_rank p.data_parallel
      || is_outside pipeline_rank p.pipeline_parallel
      || is_outside context_rank p.context_parallel
      || is_outside tensor_rank p.tensor_parallel
      || is_outside expert_rank p.expert_parallel
    then err out_of_range
    else ok (
        rank_number p (pos_part data_rank) (pos_part pipeline_rank) (pos_part context_rank)
          (pos_part tensor_rank) (pos_part expert_rank))

-- The overloads that leave out the expert rank, and the context rank too.
pub global_rank_dense : Topology → ℤ → ℤ → ℤ → ℤ → Result ℕ
global_rank_dense topology data_rank pipeline_rank context_rank tensor_rank =
    global_rank topology data_rank pipeline_rank context_rank tensor_rank (pos 0)

pub global_rank_basic : Topology → ℤ → ℤ → ℤ → Result ℕ
unfolding global_rank_dense
global_rank_basic topology data_rank pipeline_rank tensor_rank =
    global_rank_dense topology data_rank pipeline_rank (pos 0) tensor_rank

-- The counters of the four nested loops that fill `model_group`, in the order they take them.
pub record ModelIndex : Type 0 where
  pub pp : ℕ
  pub cp : ℕ
  pub t : ℕ
  pub e : ℕ

abbrev pub model_indices : ParallelDims → List ModelIndex
model_indices p =
    flat_map
      (λ pp.
        flat_map
          (λ cp.
            flat_map
              (λ t.
                map (λ e. record { pp = pp; cp = cp; t = t; e = e })
                  (range 0 (pos_part p.expert_parallel)))
              (range 0 (pos_part p.tensor_parallel)))
          (range 0 (pos_part p.context_parallel)))
      (range 0 (pos_part p.pipeline_parallel))

-- The coordinates of a rank, by `%` and `/`.
pub record Coordinates : Type 0 where
  pub data_rank : ℕ
  pub pipeline_rank : ℕ
  pub context_rank : ℕ
  pub tensor_rank : ℕ
  pub expert_rank : ℕ

unfoldable pub coordinates : ParallelDims → ℕ → Coordinates
coordinates p rank =
    let rem₁ = rank / pos_part p.expert_parallel in
    let rem₂ = rem₁ / pos_part p.tensor_parallel in
    let rem₃ = rem₂ / pos_part p.context_parallel in
    record {
      data_rank = rem₃ / pos_part p.pipeline_parallel;
      pipeline_rank = rem₃ % pos_part p.pipeline_parallel;
      context_rank = rem₂ % pos_part p.context_parallel;
      tensor_rank = rem₁ % pos_part p.tensor_parallel;
      expert_rank = rank % pos_part p.expert_parallel;
    }

abbrev pub sequence_block_begin : ParallelDims → ℕ → ℕ
sequence_block_begin p tensor_rank =
    (tensor_rank / pos_part p.sequence_parallel) * pos_part p.sequence_parallel

unfoldable pub rank_info : Topology → ℤ → Result ParallelRankInfo
rank_info topology rank = do
  throw_if (is_outside rank topology.spec.world_size) out_of_range
  let p = topology.spec.parallel
  let at = coordinates p (pos_part rank)
  let d = pos at.data_rank
  let pp = pos at.pipeline_rank
  let c = pos at.context_rank
  let t = pos at.tensor_rank
  let e = pos at.expert_rank
  data_group ←
      map_result (λ i. global_rank topology (pos i) pp c t e) (range 0 (pos_part p.data_parallel))
  tensor_group ←
      map_result (λ i. global_rank topology d pp c (pos i) e) (range 0 (pos_part p.tensor_parallel))
  pipeline_group ←
      map_result (λ i. global_rank topology d (pos i) c t e)
        (range 0 (pos_part p.pipeline_parallel))
  context_group ←
      map_result (λ i. global_rank topology d pp (pos i) t e)
        (range 0 (pos_part p.context_parallel))
  expert_group ←
      map_result (λ i. global_rank topology d pp c t (pos i)) (range 0 (pos_part p.expert_parallel))
  sequence_group ←
      map_result (λ i. global_rank topology d pp c (pos i) e)
        (range (sequence_block_begin p at.tensor_rank) (pos_part p.sequence_parallel))
  model_group ←
      map_result
        (λ (i : ModelIndex). global_rank topology d (pos i.pp) (pos i.cp) (pos i.t) (pos i.e))
        (model_indices p)
  ok (record {
    rank = pos_part rank;
    data_rank = at.data_rank;
    tensor_rank = at.tensor_rank;
    pipeline_rank = at.pipeline_rank;
    context_rank = at.context_rank;
    expert_rank = at.expert_rank;
    sequence_rank = at.tensor_rank % pos_part p.sequence_parallel;
    data_group = data_group;
    tensor_group = tensor_group;
    pipeline_group = pipeline_group;
    context_group = context_group;
    expert_group = expert_group;
    sequence_group = sequence_group;
    model_group = model_group;
  })

pub local_rank_info : Topology → Result ParallelRankInfo
local_rank_info topology = rank_info topology topology.spec.rank

unfoldable pub pipeline_layer_range : Topology → ℤ → ℤ → Result LayerRange
pipeline_layer_range topology num_layers pipeline_rank = do
  throw_if (ltb_ℤ num_layers (pos 0)) invalid_argument
  let pp = topology.spec.parallel.pipeline_parallel
  throw_if (is_outside pipeline_rank pp) out_of_range
  let base = pos_part num_layers / pos_part pp
  let rem = pos_part num_layers % pos_part pp
  let at = pos_part pipeline_rank
  let begin = at * base + min at rem
  let count = base + (if ltb at rem then 1 else 0)
  ok (record { begin = begin; end = begin + count })

pub local_pipeline_layer_range : Topology → ℤ → Result LayerRange
unfolding local_rank_info
local_pipeline_layer_range topology num_layers = do
  info ← local_rank_info topology
  pipeline_layer_range topology num_layers (pos info.pipeline_rank)
