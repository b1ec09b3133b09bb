-- ===== src/Topology/Groups.antt =====
-- Round trips between ranks and coordinates, and the process groups as equivalence classes.
use cverl.Base.{
  ℕ, zero, suc, ◌+◌, ◌*◌, ◌/◌, ◌%◌, ◌<◌, ◌≡◌, refl, sym, ap, ◌∙◌, List, map, pos, pos_part, range,
  some, get_elem?, ok-injective, ok, arith,
}
use cverl.Topology.Types.{
  ParallelDims, Topology, ParallelRankInfo, Coordinates, rank_number, coordinates, global_rank,
  rank_info, sequence_block_begin,
}
use cverl.Topology.Radix.{div_mod, mod_lt, div_digits, mod_digits}
use cverl.Topology.Valid.{IsValid}
use cverl.Topology.Ranks.{
  IsCoordinate, global_rank-IsCoordinate, coordinates-IsCoordinate, coordinates-rank_number,
  rank_number-coordinates, rank_number-lt,
}
use cverl.Topology.Info.{info_at, rank_info-info_at, sequence_lt}

-- The kinds of group that `ParallelRankInfo` holds for one varying coordinate.
pub data Axis : Type 0 where
  data_axis tensor_axis pipeline_axis context_axis expert_axis sequence_axis : Axis

abbrev pub group : Axis → ParallelRankInfo → List ℕ
group data_axis info = info.data_group
group tensor_axis info = info.tensor_group
group pipeline_axis info = info.pipeline_group
group context_axis info = info.context_group
group expert_axis info = info.expert_group
group sequence_axis info = info.sequence_group

abbrev pub place : Axis → ParallelRankInfo → ℕ
place data_axis info = info.data_rank
place tensor_axis info = info.tensor_rank
place pipeline_axis info = info.pipeline_rank
place context_axis info = info.context_rank
place expert_axis info = info.expert_rank
place sequence_axis info = info.sequence_rank

get_elem?-map-range :
    (f : ℕ → ℕ) (from count i : ℕ) {x : ℕ}
    → get_elem? (map f (range from count)) i ≡ some x
    → (i < count) × (f (from + i) ≡ x)
get_elem?-map-range f from zero i h = cc
get_elem?-map-range f from (suc count) zero h =
    (omega arith, let e : from + 0 ≡ from = omega arith in rw e (cc))
get_elem?-map-range f from (suc count) (suc i) h =
    let (lt, e) = get_elem?-map-range f (from + 1) count i h in
    let regroup : from + suc i ≡ from + 1 + i = omega arith in (omega arith, rw regroup e)

map-range-get_elem? :
    (f : ℕ → ℕ) (from count i : ℕ)
    → i < count
    → get_elem? (map f (range from count)) i ≡ some (f (from + i))
map-range-get_elem? f from zero i h = elim h [ ]
map-range-get_elem? f from (suc count) zero h = let e : from + 0 ≡ from = omega arith in rw e
map-range-get_elem? f from (suc count) (suc i) h =
    let e : from + suc i ≡ from + 1 + i = omega arith in
    rw e (map-range-get_elem? f (from + 1) count i (omega arith))

module _ (topology : Topology) (v : IsValid topology.spec) where
  abbrev dims : ParallelDims
  dims = topology.spec.parallel

  abbrev pub coordinate : ℕ → ℕ → ℕ → ℕ → ℕ → Coordinates
  coordinate d pp c t e = record {
    data_rank = d;
    pipeline_rank = pp;
    context_rank = c;
    tensor_rank = t;
    expert_rank = e;
  }

  -- rank_info at the number of a coordinate.
  pub rank_info-rank_number :
      (d pp c t e : ℕ)
      → IsCoordinate dims d pp c t e
      → rank_info topology (pos (rank_number dims d pp c t e))
        ≡ ok (info_at dims (rank_number dims d pp c t e) (coordinate d pp c t e))
  rank_info-rank_number d pp c t e h =
      rank_info-info_at topology v (rank_number dims d pp c t e)
        (rank_number-lt topology v d pp c t e h)
      ∙ ap (λ at. ok (info_at dims (rank_number dims d pp c t e) at))
          (coordinates-rank_number dims d pp c t e h)

  -- Every rank of the world has a rank_info, its coordinates lie within the dimensions, and
  -- global_rank takes them back to the rank.
  pub rank_info-global_rank :
      (r : ℕ)
      → r < pos_part topology.spec.world_size
      → (info : ParallelRankInfo) × (rank_info topology (pos r) ≡ ok info)
        × (info.rank ≡ r)
        × IsCoordinate dims info.data_rank info.pipeline_rank info.context_rank info.tensor_rank
            info.expert_rank
        × (global_rank topology
              (pos info.data_rank)
              (pos info.pipeline_rank)
              (pos info.context_rank)
              (pos info.tensor_rank)
              (pos info.expert_rank)
            ≡ ok r)
  rank_info-global_rank r lt =
      let at = coordinates dims r in
      let home = coordinates-IsCoordinate topology v r lt in
      (
        info_at dims r at,
        rank_info-info_at topology v r lt,
        refl,
        home,
        global_rank-IsCoordinate topology at.data_rank at.pipeline_rank at.context_rank
              at.tensor_rank at.expert_rank home
            ∙ ap ok (rank_number-coordinates dims r),
      )

  -- A coordinate within the dimensions has a rank of the world, whose rank_info has exactly
  -- these coordinates: no two coordinates share a rank.
  pub global_rank-rank_info :
      (d pp c t e : ℕ)
      → IsCoordinate dims d pp c t e
      → (r : ℕ) × (info : ParallelRankInfo) × (global_rank topology
            (pos d)
            (pos pp)
            (pos c)
            (pos t)
            (pos e)
          ≡ ok r)
        × (r < pos_part topology.spec.world_size)
        × (rank_info topology (pos r) ≡ ok info)
        × (info.data_rank ≡ d)
        × (info.pipeline_rank ≡ pp)
        × (info.context_rank ≡ c)
        × (info.tensor_rank ≡ t)
        × (info.expert_rank ≡ e)
  global_rank-rank_info d pp c t e h = (
    rank_number dims d pp c t e,
    info_at dims (rank_number dims d pp c t e) (coordinate d pp c t e),
    global_rank-IsCoordinate topology d pp c t e h,
    rank_number-lt topology v d pp c t e h,
    rank_info-rank_number d pp c t e h,
    refl,
    refl,
    refl,
    refl,
    refl,
  )

module _ (topology : Topology) (v : IsValid topology.spec) (r : ℕ)
    (lt : r < pos_part topology.spec.world_size) where
  abbrev at : Coordinates
  at = coordinates topology.spec.parallel r

  abbrev p : ParallelDims
  p = topology.spec.parallel

  Member : Axis → ℕ → ℕ → Type 0
  Member a i member =
      (info : ParallelRankInfo) × (rank_info topology (pos member) ≡ ok info)
      × (group a info ≡ group a (info_at p r at))
      × (place a info ≡ i)

  home : IsCoordinate p at.data_rank at.pipeline_rank at.context_rank at.tensor_rank at.expert_rank
  home = coordinates-IsCoordinate topology v r lt

  member_of :
      (a : Axis) (i d pp c t e member : ℕ)
      → IsCoordinate p d pp c t e
      → rank_number p d pp c t e ≡ member
      → group a (info_at p (rank_number p d pp c t e) (coordinate topology v d pp c t e))
        ≡ group a (info_at p r at)
      → place a (info_at p (rank_number p d pp c t e) (coordinate topology v d pp c t e)) ≡ i
      → Member a i member
  unfolding Member
  member_of a i d pp c t e member h number same here = (
    info_at p (rank_number p d pp c t e) (coordinate topology v d pp c t e),
    ap (λ (x : ℕ). rank_info topology (pos x)) (sym number)
        ∙ rank_info-rank_number topology v d pp c t e h,
    same,
    here,
  )

  sequence_place :
      (i : ℕ)
      → i < pos_part p.sequence_parallel
      → (sequence_block_begin p (sequence_block_begin p at.tensor_rank + i)
          ≡ sequence_block_begin p at.tensor_rank)
        × ((sequence_block_begin p at.tensor_rank + i) % pos_part p.sequence_parallel ≡ i)
  sequence_place i h =
      let s = pos_part p.sequence_parallel in
      (
        ap (λ (q : ℕ). q * s) (div_digits (at.tensor_rank / s) i s h),
        mod_digits (at.tensor_rank / s) i s h,
      )

  member : (a : Axis) (i x : ℕ) → get_elem? (group a (info_at p r at)) i ≡ some x → Member a i x
  member data_axis i x h =
      let (i_lt, e) = get_elem?-map-range _ 0 _ i h in
      let zero_add : 0 + i ≡ i = omega arith in
      member_of data_axis i i at.pipeline_rank at.context_rank at.tensor_rank at.expert_rank x
        (omega (arith, home)) (rw zero_add at e) refl refl
  member tensor_axis i x h =
      let (i_lt, e) = get_elem?-map-range _ 0 _ i h in
      let zero_add : 0 + i ≡ i = omega arith in
      member_of tensor_axis i at.data_rank at.pipeline_rank at.context_rank i at.expert_rank x
        (omega (arith, home)) (rw zero_add at e) refl refl
  member pipeline_axis i x h =
      let (i_lt, e) = get_elem?-map-range _ 0 _ i h in
      let zero_add : 0 + i ≡ i = omega arith in
      member_of pipeline_axis i at.data_rank i at.context_rank at.tensor_rank at.expert_rank x
        (omega (arith, home)) (rw zero_add at e) refl refl
  member context_axis i x h =
      let (i_lt, e) = get_elem?-map-range _ 0 _ i h in
      let zero_add : 0 + i ≡ i = omega arith in
      member_of context_axis i at.data_rank at.pipeline_rank i at.tensor_rank at.expert_rank x
        (omega (arith, home)) (rw zero_add at e) refl refl
  member expert_axis i x h =
      let (i_lt, e) = get_elem?-map-range _ 0 _ i h in
      let zero_add : 0 + i ≡ i = omega arith in
      member_of expert_axis i at.data_rank at.pipeline_rank at.context_rank at.tensor_rank i x
        (omega (arith, home)) (rw zero_add at e) refl refl
  member sequence_axis i x h =
      let (i_lt, e) = get_elem?-map-range _ _ _ i h in
      let begin = sequence_block_begin p at.tensor_rank in
      let inside = sequence_lt topology v r lt (begin + i) (omega arith) in
      member_of sequence_axis i at.data_rank at.pipeline_rank at.context_rank (begin + i)
        at.expert_rank x (omega (arith, home, inside)) e (rw (sequence_place i i_lt).0)
        (sequence_place i i_lt).1

  own : (a : Axis) → get_elem? (group a (info_at p r at)) (place a (info_at p r at)) ≡ some r
  own data_axis =
      let zero_add : 0 + at.data_rank ≡ at.data_rank = omega arith in
      map-range-get_elem? _ 0 _ at.data_rank home.data_lt
      ∙ rw zero_add (ap some (rank_number-coordinates p r))
  own tensor_axis =
      let zero_add : 0 + at.tensor_rank ≡ at.tensor_rank = omega arith in
      map-range-get_elem? _ 0 _ at.tensor_rank home.tensor_lt
      ∙ rw zero_add (ap some (rank_number-coordinates p r))
  own pipeline_axis =
      let zero_add : 0 + at.pipeline_rank ≡ at.pipeline_rank = omega arith in
      map-range-get_elem? _ 0 _ at.pipeline_rank home.pipeline_lt
      ∙ rw zero_add (ap some (rank_number-coordinates p r))
  own context_axis =
      let zero_add : 0 + at.context_rank ≡ at.context_rank = omega arith in
      map-range-get_elem? _ 0 _ at.context_rank home.context_lt
      ∙ rw zero_add (ap some (rank_number-coordinates p r))
  own expert_axis =
      let zero_add : 0 + at.expert_rank ≡ at.expert_rank = omega arith in
      map-range-get_elem? _ 0 _ at.expert_rank home.expert_lt
      ∙ rw zero_add (ap some (rank_number-coordinates p r))
  own sequence_axis =
      let s = pos_part p.sequence_parallel in
      let back : sequence_block_begin p at.tensor_rank + at.tensor_rank % s ≡ at.tensor_rank =
        div_mod at.tensor_rank s in
      map-range-get_elem? _ _ _ (at.tensor_rank % s) (mod_lt at.tensor_rank s v.sequence_pos)
      ∙ rw back (ap some (rank_number-coordinates p r))

  -- The groups of one kind are disjoint classes: rank r is in its own group, at its own place,
  -- and every member of that group, at place i, has a rank_info with the same group and place i.
  pub group_partition :
      (a : Axis) {info : ParallelRankInfo}
      → rank_info topology (pos r) ≡ ok info
      → (get_elem? (group a info) (place a info) ≡ some r)
        × ((i x : ℕ)
            → get_elem? (group a info) i ≡ some x
            → (other : ParallelRankInfo) × (rank_info topology (pos x) ≡ ok other)
              × (group a other ≡ group a info)
              × (place a other ≡ i))
  unfolding Member
  group_partition a {info} h =
      rw (ok-injective (sym h ∙ rank_info-info_at topology v r lt)) (own a, member a)
