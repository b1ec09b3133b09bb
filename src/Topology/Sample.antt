-- ===== src/Topology/Sample.antt =====
-- One small cluster, for the tests of this and of other components.
use cverl.Base.{[], true, false, pos, minus_one, arith}
use cverl.Topology.Types.{
  ParallelDims, MemoryPolicy, NetworkPolicy, ClusterSpec, Topology, bfloat16, float32,
  default_parallel_dims,
}
use cverl.Topology.Valid.{IsValid}

-- The default member initialisers of MemoryPolicy and NetworkPolicy.
abbrev pub default_memory : MemoryPolicy
default_memory = record {
  param_dtype = bfloat16;
  reduce_dtype = float32;
  activation_checkpointing = true;
  overlap_grad_reduce = true;
  overlap_param_gather = true;
  shard_optimizer = true;
  shard_gradients = true;
  cpu_optimizer_offload = false;
  cpu_param_offload = false;
  max_activation_bytes_per_rank = pos 0;
}

abbrev pub default_network : NetworkPolicy
default_network = record {
  socket_ifnames = [];
  ib_hcas = [];
  nccl_topo_file = "";
  nccl_ib_gid_index = minus_one;
  enable_nvls = true;
  enable_p2p = true;
  enable_ib = true;
}

-- Two replicas of two stages of two tensor ranks, four micro-batches.
abbrev pub small_dims : ParallelDims
small_dims = record default_parallel_dims {
  data_parallel = pos 2;
  tensor_parallel = pos 2;
  pipeline_parallel = pos 2;
  sequence_parallel = pos 2;
  micro_batches = pos 4;
}

abbrev pub small_spec : ClusterSpec
small_spec = record {
  world_size = pos 8;
  rank = pos 5;
  local_world_size = pos 8;
  local_rank = pos 5;
  node_rank = pos 0;
  gpus_per_node = pos 8;
  parallel = small_dims;
  memory = default_memory;
  network = default_network;
}

abbrev pub small : Topology
small = record { spec = small_spec }

pub small-IsValid : IsValid small_spec
small-IsValid = omega arith
