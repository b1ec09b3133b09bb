-- ===== src/Safetensors/Tensors.antt =====
-- The tensors of the two files. What LibTorch does is a parameter: which tensors are defined, the
-- conversion `detach().to(CPU).to(dtype).contiguous()`, and `empty`.
use cverl.Base.{ℕ, Bool, List, ℤ, Bytes, Result}

pub data ScalarType : Type 0 where
  k_float32 k_float16 k_bfloat16 k_int64 k_int32 k_uint8 : ScalarType
  k_other : ℕ → ScalarType

-- A contiguous tensor in the memory of the CPU.
pub record CpuTensor : Type 0 where
  pub scalar_type : ScalarType
  pub sizes : List ℕ
  pub memory : Bytes

pub record Torch (T : Type 0) : Type 0 where
  pub defined : T → Bool
  pub converted : ScalarType → T → CpuTensor
  pub empty : List ℤ → ScalarType → Result CpuTensor
