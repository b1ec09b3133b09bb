-- ===== src/Topology/Layers.antt =====
-- `pipeline_layer_range`: the stages split the layers into consecutive ranges.
use cverl.Base.{
  ℕ, zero, suc, ◌+◌, ◌*◌, ◌/◌, ◌%◌, ◌≤◌, ◌<◌, ◌≡◌, refl, sym, ◌∙◌, ◌⊎◌, false, pos, pos_part, ltb,
  ltb_ℤ, if◌then◌else◌, min, ok, arith,
}
use native.Mathlib.Decide.{dec_lt}
use cverl.Topology.Types.{Topology, LayerRange, pipeline_layer_range}
use cverl.Topology.Radix.{div_mod, mod_lt}
use cverl.Topology.Valid.{IsValid}
use cverl.Topology.Ranks.{is_outside-pos}

-- The first layer of stage s when n layers are split over pp stages.
first_layer : ℕ → ℕ → ℕ → ℕ
first_layer n pp s = s * (n / pp) + min s (n % pp)

first_layer-suc :
    (n pp s : ℕ)
    → first_layer n pp (s + 1) ≡ first_layer n pp s + (n / pp + (if ltb s (n % pp) then 1 else 0))
unfolding first_layer
first_layer-suc n pp s = ground arith

first_layer-end : (n pp : ℕ) → 0 < pp → first_layer n pp pp ≡ n
unfolding first_layer
first_layer-end n pp h = omega (arith, div_mod n pp, mod_lt n pp h)

first_layer_mono : (n pp s s' : ℕ) → s ≤ s' → first_layer n pp s ≤ first_layer n pp s'
unfolding first_layer
first_layer_mono n pp s s' h = grind arith

-- Some stage below k holds a layer below the first layer of stage k.
stage_of :
    (n pp k layer : ℕ)
    → layer < first_layer n pp k
    → (s : ℕ) × (s < k) × (first_layer n pp s ≤ layer) × (layer < first_layer n pp (s + 1))
unfolding first_layer
stage_of n pp zero layer h = absurd (omega arith)
stage_of n pp (suc k) layer h = elim (dec_lt layer (first_layer n pp k)) [
  | yes below ↦ let (s, lt, lo, hi) = stage_of n pp k layer below in (s, omega arith, lo, hi)
  | no above ↦ (k, omega arith, omega arith, omega arith)
]

count_nonneg : (n : ℕ) → ltb_ℤ (pos n) (pos 0) ≡ false
count_nonneg n = ground arith

module _ (topology : Topology) (v : IsValid topology.spec) (n : ℕ) where
  abbrev stages : ℕ
  stages = pos_part topology.spec.parallel.pipeline_parallel

  pipeline_layer_range-first_layer :
      (s : ℕ)
      → s < stages
      → pipeline_layer_range topology (pos n) (pos s)
        ≡ ok (record { begin = first_layer n stages s; end = first_layer n stages (s + 1) })
  unfolding pipeline_layer_range
  pipeline_layer_range-first_layer s h =
      rw
        (
          count_nonneg n,
          is_outside-pos s topology.spec.parallel.pipeline_parallel h,
          first_layer-suc n stages s,
        )
        (unfold first_layer in refl)

  -- For any number of layers, each stage's range is computed; the first stage begins at layer 0,
  -- each stage begins where the one before it ends, the last ends at the number of layers, and
  -- a stage has the quotient of layers by stages, or one more.
  pub pipeline_layer_range-tiles :
      (s : ℕ)
      → s < stages
      → (range : LayerRange) × (pipeline_layer_range topology (pos n) (pos s) ≡ ok range)
        × (s ≡ 0 → range.begin ≡ 0)
        × (s + 1 ≡ stages → range.end ≡ n)
        × ((next : LayerRange)
            → pipeline_layer_range topology (pos n) (pos (s + 1)) ≡ ok next
            → s + 1 < stages
            → next.begin ≡ range.end)
        × ((range.end ≡ range.begin + n / stages) ⊎ (range.end ≡ range.begin + n / stages + 1))
  pipeline_layer_range-tiles s h = (
    record { begin = first_layer n stages s; end = first_layer n stages (s + 1) },
    pipeline_layer_range-first_layer s h,
    λ e. unfold first_layer in (rw e (omega arith)),
    λ e. rw e (first_layer-end n stages v.pipeline_pos),
    λ next e later. cc (e, pipeline_layer_range-first_layer (s + 1) later),
    ground (arith, first_layer-suc n stages s),
  )

  -- Stage s computes a range that holds the layer.
  abbrev pub Holds : ℕ → ℕ → Type 0
  Holds layer s =
      (s < stages)
      × ((range : LayerRange) × (pipeline_layer_range topology (pos n) (pos s) ≡ ok range)
          × (range.begin ≤ layer)
          × (layer < range.end))

  Holds-first_layer :
      (layer s : ℕ)
      → Holds layer s
      → (first_layer n stages s ≤ layer) × (layer < first_layer n stages (s + 1))
  Holds-first_layer layer s (s_lt, (range, e, lo, hi)) =
      let same : ok range
          ≡ ok (record { begin = first_layer n stages s; end = first_layer n stages (s + 1) }) =
        sym e ∙ pipeline_layer_range-first_layer s s_lt in
      ground arith

  -- Every layer below the number of layers is held by exactly one stage.
  pub layer_owner :
      (layer : ℕ) → layer < n → (s : ℕ) × Holds layer s × ((s' : ℕ) → Holds layer s' → s' ≡ s)
  layer_owner layer h =
      let (s, s_lt, lo, hi) =
        stage_of n stages stages layer (rw (first_layer-end n stages v.pipeline_pos) h) in
      (
        s,
        (s_lt, (_, pipeline_layer_range-first_layer s s_lt, lo, hi)),
        λ s' held'. unique s s' layer lo hi (Holds-first_layer layer s' held'),
      )
    where
      unique :
          (s s' layer : ℕ)
          → first_layer n stages s ≤ layer
          → layer < first_layer n stages (s + 1)
          → (first_layer n stages s' ≤ layer) × (layer < first_layer n stages (s' + 1))
          → s' ≡ s
      unique s s' layer lo hi (lo', hi') =
          grind (arith, first_layer_mono n stages (s + 1) s', first_layer_mono n stages (s' + 1) s)
