-- ===== src/Topology/Valid.antt =====
-- What `Topology::validate` accepts.
use cverl.Base.{
  wrap_int64, wrap_int64-pos, ◌^◌, ℕ, ◌*◌, ◌%◌, ◌≤◌, ◌<◌, ◌≡◌, refl, ap, ◌∙◌, ◌↔◌, false, not, ◌&&◌,
  ◌||◌, ℤ, pos, negsuc, pos_part, neg_part, sym, subst, >>=-eq-ok, ◌*ℤ◌, ltb_ℤ, eqb_ℤ, ◌==◌, ok,
  >>-eq-ok, throw_if-eq-ok, arith,
}
use cverl.Topology.Types.{
  ParallelDims, ClusterSpec, Topology, require_positive, is_outside, rem, validate, make_topology,
}

-- The requirements that the messages of `validate` state, with every quantity a number.
pub record IsValid (s : ClusterSpec) : Type 0 where
  pub world_pos : 0 < pos_part s.world_size
  pub local_world_pos : 0 < pos_part s.local_world_size
  pub gpus_pos : 0 < pos_part s.gpus_per_node
  pub data_pos : 0 < pos_part s.parallel.data_parallel
  pub tensor_pos : 0 < pos_part s.parallel.tensor_parallel
  pub pipeline_pos : 0 < pos_part s.parallel.pipeline_parallel
  pub context_pos : 0 < pos_part s.parallel.context_parallel
  pub expert_pos : 0 < pos_part s.parallel.expert_parallel
  pub sequence_pos : 0 < pos_part s.parallel.sequence_parallel
  pub micro_pos : 0 < pos_part s.parallel.micro_batches
  pub rank_nonneg : neg_part s.rank ≡ 0
  pub rank_lt : pos_part s.rank < pos_part s.world_size
  pub local_rank_nonneg : neg_part s.local_rank ≡ 0
  pub local_rank_lt : pos_part s.local_rank < pos_part s.local_world_size
  pub world_product :
      pos_part s.world_size
      ≡ pos_part s.parallel.data_parallel
        * pos_part s.parallel.pipeline_parallel
        * pos_part s.parallel.context_parallel
        * pos_part s.parallel.tensor_parallel
        * pos_part s.parallel.expert_parallel
  pub enough_micro :
      1 < pos_part s.parallel.pipeline_parallel
      → pos_part s.parallel.pipeline_parallel ≤ pos_part s.parallel.micro_batches
  pub tensor_fits : pos_part s.parallel.tensor_parallel ≤ pos_part s.gpus_per_node
  pub sequence_le : pos_part s.parallel.sequence_parallel ≤ pos_part s.parallel.tensor_parallel
  pub sequence_divides :
      pos_part s.parallel.tensor_parallel % pos_part s.parallel.sequence_parallel ≡ 0
  pub local_fits : pos_part s.local_world_size ≤ pos_part s.gpus_per_node

require_positive_lem : (z : ℤ) → require_positive z ≡ ok tt → 0 < pos_part z
unfolding require_positive
require_positive_lem z h = ground arith

is_outside_lem : (x n : ℤ) → is_outside x n ≡ false → (neg_part x ≡ 0) × (pos_part x < pos_part n)
is_outside_lem x n h = ground arith

-- Products of positive integers are those of the numbers.
*ℤ_parts :
    (a b : ℤ)
    → 0 < pos_part a
    → 0 < pos_part b
    → (pos_part (a *ℤ b) ≡ pos_part a * pos_part b) × (0 < pos_part (a *ℤ b))
*ℤ_parts (pos a) (pos b) h k = (refl, grind arith)
*ℤ_parts (pos a) (negsuc b) h k = absurd (omega arith)
*ℤ_parts (negsuc a) (pos b) h k = absurd (omega arith)
*ℤ_parts (negsuc a) (negsuc b) h k = absurd (omega arith)

-- The number of ranks that the dimensions of a spec ask for.
abbrev pub rank_count : ParallelDims → ℕ
rank_count p =
    pos_part p.data_parallel
    * pos_part p.pipeline_parallel
    * pos_part p.context_parallel
    * pos_part p.tensor_parallel
    * pos_part p.expert_parallel

product_lem :
    (a b c d e : ℤ)
    → 0 < pos_part a
    → 0 < pos_part b
    → 0 < pos_part c
    → 0 < pos_part d
    → 0 < pos_part e
    → (pos_part (a *ℤ b *ℤ c *ℤ d *ℤ e)
        ≡ pos_part a * pos_part b * pos_part c * pos_part d * pos_part e)
      × (0 < pos_part (a *ℤ b *ℤ c *ℤ d *ℤ e))
product_lem a b c d e ha hb hc hd he =
    let ab = *ℤ_parts a b ha hb in
    let abc = *ℤ_parts (a *ℤ b) c ab.1 hc in
    let abcd = *ℤ_parts (a *ℤ b *ℤ c) d abc.1 hd in
    let abcde = *ℤ_parts (a *ℤ b *ℤ c *ℤ d) e abcd.1 he in
    (
      abcde.0
          ∙ ap (λ (x : ℕ). x * pos_part e)
              (abcd.0
                ∙ ap (λ (x : ℕ). x * pos_part d) (abc.0 ∙ ap (λ (x : ℕ). x * pos_part c) ab.0)),
      abcde.1,
    )

-- A product below 2^63 is the one that the code computes.
wrap_lem : (z : ℤ) (n : ℕ) → pos_part z ≡ n → 0 < n → n < 2 ^ 63 → wrap_int64 z ≡ z
wrap_lem (pos k) n e some small = wrap_int64-pos k (omega (arith, e))
wrap_lem (negsuc k) n e some small = absurd (omega arith)

eq_parts : (a b : ℤ) → not (eqb_ℤ a b) ≡ false → pos_part a ≡ pos_part b
eq_parts a b h = ground arith

micro_lem :
    (pp mb : ℤ)
    → (ltb_ℤ (pos 1) pp && ltb_ℤ mb pp) ≡ false
    → 1 < pos_part pp
    → 0 < pos_part mb
    → pos_part pp ≤ pos_part mb
micro_lem pp mb h k m = ground arith

fits_lem : (a b : ℤ) → ltb_ℤ b a ≡ false → 0 < pos_part b → pos_part a ≤ pos_part b
fits_lem a b h k = ground arith

sequence_lem :
    (tp sp : ℤ)
    → (ltb_ℤ tp sp || not (rem tp sp == 0)) ≡ false
    → 0 < pos_part tp
    → (pos_part sp ≤ pos_part tp) × (pos_part tp % pos_part sp ≡ 0)
sequence_lem tp sp h k = ground arith

pub validate-IsValid :
    (s : ClusterSpec) → rank_count s.parallel < 2 ^ 63 → validate s ≡ ok tt → IsValid s
unfolding validate
validate-IsValid s small h₀ =
    let (world, h₁) = >>-eq-ok _ _ h₀ in
    let (local, h₂) = >>-eq-ok _ _ h₁ in
    let (gpus, h₃) = >>-eq-ok _ _ h₂ in
    let (dp, h₄) = >>-eq-ok _ _ h₃ in
    let (tp, h₅) = >>-eq-ok _ _ h₄ in
    let (pp, h₆) = >>-eq-ok _ _ h₅ in
    let (cp, h₇) = >>-eq-ok _ _ h₆ in
    let (ep, h₈) = >>-eq-ok _ _ h₇ in
    let (sp, h₉) = >>-eq-ok _ _ h₈ in
    let (mb, g₀) = >>-eq-ok _ _ h₉ in
    let (rank, g₁) = >>-eq-ok _ _ g₀ in
    let (local_rank, g₂) = >>-eq-ok _ _ g₁ in
    let (product, g₃) = >>-eq-ok _ _ g₂ in
    let (micro, g₄) = >>-eq-ok _ _ g₃ in
    let (tensor, g₅) = >>-eq-ok _ _ g₄ in
    let (sequence, fits) = >>-eq-ok _ _ g₅ in
    let p = s.parallel in
    let dp' = require_positive_lem p.data_parallel dp in
    let tp' = require_positive_lem p.tensor_parallel tp in
    let pp' = require_positive_lem p.pipeline_parallel pp in
    let cp' = require_positive_lem p.context_parallel cp in
    let ep' = require_positive_lem p.expert_parallel ep in
    let mb' = require_positive_lem p.micro_batches mb in
    let gpus' = require_positive_lem s.gpus_per_node gpus in
    let rank' = is_outside_lem s.rank s.world_size (throw_if-eq-ok _ _ rank) in
    let local_rank' =
      is_outside_lem s.local_rank s.local_world_size (throw_if-eq-ok _ _ local_rank) in
    let sequence' =
      sequence_lem p.tensor_parallel p.sequence_parallel (throw_if-eq-ok _ _ sequence) tp' in
    let exact =
      product_lem p.data_parallel p.pipeline_parallel p.context_parallel p.tensor_parallel
        p.expert_parallel dp' pp' cp' tp' ep' in
    record {
      world_pos = require_positive_lem s.world_size world;
      local_world_pos = require_positive_lem s.local_world_size local;
      gpus_pos = gpus';
      data_pos = dp';
      tensor_pos = tp';
      pipeline_pos = pp';
      context_pos = cp';
      expert_pos = ep';
      sequence_pos = require_positive_lem p.sequence_parallel sp;
      micro_pos = mb';
      rank_nonneg = rank'.0;
      rank_lt = rank'.1;
      local_rank_nonneg = local_rank'.0;
      local_rank_lt = local_rank'.1;
      world_product =
          eq_parts s.world_size _ (throw_if-eq-ok _ _ product)
          ∙ ap pos_part
              {y = p.data_parallel *ℤ p.pipeline_parallel *ℤ p.context_parallel *ℤ p.tensor_parallel
                *ℤ p.expert_parallel}
              (wrap_lem _ _ exact.0 (subst (λ n. 0 < n) exact.0 exact.1) small)
          ∙ exact.0;
      enough_micro =
          λ k. micro_lem p.pipeline_parallel p.micro_batches (throw_if-eq-ok _ _ micro) k mb';
      tensor_fits = fits_lem p.tensor_parallel s.gpus_per_node (throw_if-eq-ok _ _ tensor) gpus';
      sequence_le = sequence'.0;
      sequence_divides = sequence'.1;
      local_fits = fits_lem s.local_world_size s.gpus_per_node (throw_if-eq-ok _ _ fits) gpus';
    }

require_positive-of_pos : (z : ℤ) → 0 < pos_part z → require_positive z ≡ ok tt
unfolding require_positive
require_positive-of_pos z h = ground arith

is_outside-of_lt : (x n : ℤ) → neg_part x ≡ 0 → pos_part x < pos_part n → is_outside x n ≡ false
is_outside-of_lt x n h k = ground arith

eqb_ℤ-of_parts :
    (a b : ℤ) → pos_part a ≡ pos_part b → 0 < pos_part a → 0 < pos_part b → not (eqb_ℤ a b) ≡ false
eqb_ℤ-of_parts a b h k l = ground arith

micro-of_enough :
    (pp mb : ℤ)
    → (1 < pos_part pp → pos_part pp ≤ pos_part mb)
    → 0 < pos_part pp
    → 0 < pos_part mb
    → (ltb_ℤ (pos 1) pp && ltb_ℤ mb pp) ≡ false
micro-of_enough (pos pp) (pos mb) h k m = ground arith
micro-of_enough (pos pp) (negsuc mb) h k m = absurd (omega arith)
micro-of_enough (negsuc pp) mb h k m = absurd (omega arith)

fits-of_le : (a b : ℤ) → pos_part a ≤ pos_part b → 0 < pos_part a → ltb_ℤ b a ≡ false
fits-of_le a b h k = ground arith

sequence-of_divides :
    (tp sp : ℤ)
    → pos_part sp ≤ pos_part tp
    → pos_part tp % pos_part sp ≡ 0
    → 0 < pos_part sp
    → (ltb_ℤ tp sp || not (rem tp sp == 0)) ≡ false
sequence-of_divides tp sp h k l = ground arith

pub IsValid-validate :
    (s : ClusterSpec) → rank_count s.parallel < 2 ^ 63 → IsValid s → validate s ≡ ok tt
unfolding validate
IsValid-validate s small v =
    let p = s.parallel in
    let product =
      product_lem p.data_parallel p.pipeline_parallel p.context_parallel p.tensor_parallel
        p.expert_parallel v.data_pos v.pipeline_pos v.context_pos v.tensor_pos v.expert_pos in
    rw (
      require_positive-of_pos s.world_size v.world_pos,
      require_positive-of_pos s.local_world_size v.local_world_pos,
      require_positive-of_pos s.gpus_per_node v.gpus_pos,
      require_positive-of_pos p.data_parallel v.data_pos,
      require_positive-of_pos p.tensor_parallel v.tensor_pos,
      require_positive-of_pos p.pipeline_parallel v.pipeline_pos,
      require_positive-of_pos p.context_parallel v.context_pos,
      require_positive-of_pos p.expert_parallel v.expert_pos,
      require_positive-of_pos p.sequence_parallel v.sequence_pos,
      require_positive-of_pos p.micro_batches v.micro_pos,
      is_outside-of_lt s.rank s.world_size v.rank_nonneg v.rank_lt,
      is_outside-of_lt s.local_rank s.local_world_size v.local_rank_nonneg v.local_rank_lt,
      wrap_lem _ _ product.0 (subst (λ n. 0 < n) product.0 product.1) small,
      eqb_ℤ-of_parts s.world_size _ (v.world_product ∙ sym product.0) v.world_pos product.1,
      micro-of_enough p.pipeline_parallel p.micro_batches v.enough_micro v.pipeline_pos v.micro_pos,
      fits-of_le p.tensor_parallel s.gpus_per_node v.tensor_fits v.tensor_pos,
      sequence-of_divides p.tensor_parallel p.sequence_parallel v.sequence_le v.sequence_divides
          v.sequence_pos,
      fits-of_le s.local_world_size s.gpus_per_node v.local_fits v.local_world_pos,
    )

-- Where the product of the five dimensions that number the ranks is below 2^63: a topology is
-- constructed from a spec exactly when the spec meets every requirement of `IsValid`, and it then
-- holds that spec unchanged.
pub make_topology_iff :
    (s : ClusterSpec)
    → rank_count s.parallel < 2 ^ 63
    → ((t : Topology) × (make_topology s ≡ ok t) × (t.spec ≡ s)) ↔ IsValid s
unfolding make_topology
make_topology_iff s small = (
  λ (t, e, _).
      let (_, accepted, _) = >>=-eq-ok (validate s) _ e in
      validate-IsValid s small (accepted ∙ refl),
  λ v. (record { spec = s }, rw (IsValid-validate s small v), refl),
)
