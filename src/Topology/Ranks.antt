-- ===== src/Topology/Ranks.antt =====
-- The numbering of ranks: global_rank and rank_info are inverse to one another on a validated
-- topology, and rank_info never throws on a rank of the world.
use cverl.Base.{ℕ, ◌/◌, ◌<◌, ◌≡◌, false, ℤ, pos, pos_part, ok, arith}
use cverl.Topology.Types.{
  ParallelDims, Topology, Coordinates, is_outside, rank_number, coordinates, global_rank,
}
use cverl.Topology.Radix.{div_mod, mod_lt, div_lt, digits_lt, div_digits, mod_digits}
use cverl.Topology.Valid.{IsValid}

-- Every coordinate lies within its dimension.
pub record IsCoordinate (p : ParallelDims) (d pp c t e : ℕ) : Type 0 where
  pub data_lt : d < pos_part p.data_parallel
  pub pipeline_lt : pp < pos_part p.pipeline_parallel
  pub context_lt : c < pos_part p.context_parallel
  pub tensor_lt : t < pos_part p.tensor_parallel
  pub expert_lt : e < pos_part p.expert_parallel

pub is_outside-pos : (x : ℕ) (n : ℤ) → x < pos_part n → is_outside (pos x) n ≡ false
is_outside-pos x n h = ground arith

-- In range, global_rank returns the mixed-radix number of the coordinate.
pub global_rank-IsCoordinate :
    (topology : Topology) (d pp c t e : ℕ)
    → IsCoordinate topology.spec.parallel d pp c t e
    → global_rank topology (pos d) (pos pp) (pos c) (pos t) (pos e)
      ≡ ok (rank_number topology.spec.parallel d pp c t e)
unfolding global_rank
global_rank-IsCoordinate topology d pp c t e h =
    let p = topology.spec.parallel in
    rw (
      is_outside-pos d p.data_parallel h.data_lt,
      is_outside-pos pp p.pipeline_parallel h.pipeline_lt,
      is_outside-pos c p.context_parallel h.context_lt,
      is_outside-pos t p.tensor_parallel h.tensor_lt,
      is_outside-pos e p.expert_parallel h.expert_lt,
    )

pub coordinates-rank_number :
    (p : ParallelDims) (d pp c t e : ℕ)
    → IsCoordinate p d pp c t e
    → coordinates p (rank_number p d pp c t e) ≡ record {
      data_rank = d;
      pipeline_rank = pp;
      context_rank = c;
      tensor_rank = t;
      expert_rank = e;
    }
unfolding coordinates
coordinates-rank_number p d pp c t e h = rw (
  div_digits _ e (pos_part p.expert_parallel) h.expert_lt,
  mod_digits _ e (pos_part p.expert_parallel) h.expert_lt,
  div_digits _ t (pos_part p.tensor_parallel) h.tensor_lt,
  mod_digits _ t (pos_part p.tensor_parallel) h.tensor_lt,
  div_digits _ c (pos_part p.context_parallel) h.context_lt,
  mod_digits _ c (pos_part p.context_parallel) h.context_lt,
  div_digits _ pp (pos_part p.pipeline_parallel) h.pipeline_lt,
  mod_digits _ pp (pos_part p.pipeline_parallel) h.pipeline_lt,
)

abbrev pub number_of : ParallelDims → Coordinates → ℕ
number_of p at =
    rank_number p at.data_rank at.pipeline_rank at.context_rank at.tensor_rank at.expert_rank

pub rank_number-coordinates : (p : ParallelDims) (r : ℕ) → number_of p (coordinates p r) ≡ r
unfolding coordinates
rank_number-coordinates p r =
    let r₁ = r / pos_part p.expert_parallel in
    let r₂ = r₁ / pos_part p.tensor_parallel in
    let r₃ = r₂ / pos_part p.context_parallel in
    rw (
      div_mod r₃ (pos_part p.pipeline_parallel),
      div_mod r₂ (pos_part p.context_parallel),
      div_mod r₁ (pos_part p.tensor_parallel),
      div_mod r (pos_part p.expert_parallel),
    )

module _ (topology : Topology) (v : IsValid topology.spec) where
  abbrev pub dims : ParallelDims
  dims = topology.spec.parallel

  pub rank_number-lt :
      (d pp c t e : ℕ)
      → IsCoordinate dims d pp c t e
      → rank_number dims d pp c t e < pos_part topology.spec.world_size
  rank_number-lt d pp c t e h = rw v.world_product (
      digits_lt _ e _ _
        (digits_lt _ t _ _
          (digits_lt _ c _ _ (digits_lt d pp _ _ h.data_lt h.pipeline_lt) h.context_lt) h.tensor_lt)
        h.expert_lt)

  pub coordinates-IsCoordinate :
      (r : ℕ)
      → r < pos_part topology.spec.world_size
      → let at = coordinates dims r in
        IsCoordinate dims at.data_rank at.pipeline_rank at.context_rank at.tensor_rank
          at.expert_rank
  unfolding coordinates
  coordinates-IsCoordinate r h = record {
    data_lt = div_lt _ _ _ (div_lt _ _ _ (div_lt _ _ _ (div_lt _ _ _ (rw v.world_product at h))));
    pipeline_lt = mod_lt _ _ v.pipeline_pos;
    context_lt = mod_lt _ _ v.context_pos;
    tensor_lt = mod_lt _ _ v.tensor_pos;
    expert_lt = mod_lt _ _ v.expert_pos;
  }
