-- ===== src/Bpe/Greedy.antt =====
-- The merge loop merges greedily, and to the end.
use cverl.Base.{
  ℕ, zero, suc, ◌+◌, ◌≤◌, ◌<◌, ◌≡◌, refl, ap, sym, subst, ◌∙◌, ◌⊎◌, inl, inr, Bool, true, false,
  ◌&&◌, Option, none, some, List, [], ◌∷◌, ltb, if◌then◌else◌, length, Bytes, arith,
}
use cverl.Bpe.Merge.{int32_max, Ranks, Best, no_best, better, best_pair, merge_at, merge_loop}

-- A rank that is absent or at least r, and one that is absent or above r.
abbrev pub IsAtLeast : ℕ → Option ℕ → Type 0
IsAtLeast r none = Unit
IsAtLeast r (some s) = r ≤ s

module _ (merge_ranks : Ranks) where
  -- Every pair of neighbours has a rank of at least r, or none.
  abbrev pub NoneBelow : ℕ → List Bytes → Type 0
  NoneBelow r (p ∷ q ∷ parts) = IsAtLeast r (merge_ranks p q) × NoneBelow r (q ∷ parts)
  NoneBelow r _ = Unit

  -- The pair at j has rank r, those before it have a rank above r or none, and those behind it one of
  -- at least r or none: the leftmost pair of the lowest rank.
  abbrev pub IsBest : ℕ → ℕ → List Bytes → Type 0
  IsBest r zero (p ∷ q ∷ parts) = (merge_ranks p q ≡ some r) × NoneBelow r (q ∷ parts)
  IsBest r (suc j) (p ∷ q ∷ parts) = IsAtLeast (suc r) (merge_ranks p q) × IsBest r j (q ∷ parts)
  IsBest r j _ = ⊥

  -- Merges of the leftmost pair of the lowest rank, until no pair has a rank.
  pub data Merges : List Bytes → List Bytes → Type 0 where
    merged : {parts : List Bytes} → NoneBelow int32_max parts → Merges parts parts
    merge_step :
        (r j : ℕ) {parts out : List Bytes}
        → IsBest r j parts
        → r < int32_max
        → Merges (merge_at j parts) out
        → Merges parts out

  -- What best_pair does from the best pair so far: it keeps it, or finds a better one.
  Improves : Best → ℕ → List Bytes → Best → Type 0
  Improves best i parts out =
      ((out ≡ best) × NoneBelow best.best_rank parts)
      ⊎ ((j : ℕ) × (out.best_idx ≡ i + j)
          × (out.found ≡ true)
          × (out.best_rank < best.best_rank)
          × IsBest out.best_rank j parts)

  -- The pair that comes first, with its rank.
  add_first :
      (p q : Bytes) (parts : List Bytes) (best : Best) (i : ℕ) (o : Option ℕ) (out : Best)
      → merge_ranks p q ≡ o
      → Improves (better best i o) (i + 1) (q ∷ parts) out
      → Improves best i (p ∷ q ∷ parts) out
  unfolding Improves
  add_first p q parts best i none out e (inl (same, least)) =
      inl (same, (subst (IsAtLeast best.best_rank) (sym e) tt, least))
  add_first p q parts best i none out e (inr (j, at, got, lower, is_best)) =
      inr (
        suc j,
        omega arith,
        got,
        lower,
        (subst (IsAtLeast (suc out.best_rank)) (sym e) tt, is_best),
      )
  add_first p q parts best i (some r) out e later = by_test (ltb r best.best_rank) refl later
    where
      by_test :
          (t : Bool)
          → ltb r best.best_rank ≡ t
          → Improves
              (if t then record { best_rank = r; best_idx = i; found = true } else best)
              (i + 1)
              (q ∷ parts)
              out
          → Improves best i (p ∷ q ∷ parts) out
      by_test true lt (inl (same, least)) = inr (
        0,
        omega (arith, ap (λ b. b.best_idx) same),
        ap (λ b. b.found) same,
        ground (arith, ap (λ b. b.best_rank) same),
        (
          e ∙ ap (λ b. some b.best_rank) (sym same),
          subst (λ k. NoneBelow k (q ∷ parts)) (ap (λ b. b.best_rank) (sym same)) least,
        ),
      )
      by_test true lt (inr (j, at, got, lower, is_best)) = inr (
        suc j,
        omega arith,
        got,
        ground arith,
        (subst (IsAtLeast (suc out.best_rank)) (sym e) lower, is_best),
      )
      by_test false ge (inl (same, least)) =
          let high : best.best_rank ≤ r = ground arith in
          inl (same, (subst (IsAtLeast best.best_rank) (sym e) high, least))
      by_test false ge (inr (j, at, got, lower, is_best)) =
          let high : suc out.best_rank ≤ r = ground arith in
          inr (
            suc j,
            omega arith,
            got,
            lower,
            (subst (IsAtLeast (suc out.best_rank)) (sym e) high, is_best),
          )

  best_pair-Improves :
      (parts : List Bytes) (best : Best) (i : ℕ)
      → Improves best i parts (best_pair merge_ranks best i parts)
  unfolding best_pair Improves
  best_pair-Improves [] best i = inl (refl, tt)
  best_pair-Improves (p ∷ []) best i = inl (refl, tt)
  best_pair-Improves (p ∷ q ∷ parts) best i =
      add_first p q parts best i (merge_ranks p q)
        (best_pair merge_ranks (better best i (merge_ranks p q)) (i + 1) (q ∷ parts)) refl
        (best_pair-Improves (q ∷ parts) (better best i (merge_ranks p q)) (i + 1))

  length-merge_at :
      (r j : ℕ) (parts : List Bytes)
      → IsBest r j parts
      → suc (length (merge_at j parts)) ≡ length parts
  length-merge_at r zero (p ∷ q ∷ parts) h = refl
  length-merge_at r (suc j) (p ∷ q ∷ parts) h = ap suc (length-merge_at r j (q ∷ parts) h.1)
  length-merge_at r zero [] h = absurd h
  length-merge_at r zero (p ∷ []) h = absurd h
  length-merge_at r (suc j) [] h = absurd h
  length-merge_at r (suc j) (p ∷ []) h = absurd h

  -- Two parts at least have a best pair.
  IsBest-many : (r j : ℕ) (parts : List Bytes) → IsBest r j parts → 1 < length parts
  IsBest-many r zero (p ∷ q ∷ parts) h = omega arith
  IsBest-many r (suc j) (p ∷ q ∷ parts) h = omega arith
  IsBest-many r zero [] h = absurd h
  IsBest-many r zero (p ∷ []) h = absurd h
  IsBest-many r (suc j) [] h = absurd h
  IsBest-many r (suc j) (p ∷ []) h = absurd h

  skipped : (t f : Bool) (x y : List Bytes) → f ≡ false → (if t && f then x else y) ≡ y
  skipped true f x y e = rw e refl
  skipped false f x y e = refl

  -- The merge loop, given as many rounds as there are parts, merges the leftmost pair of the lowest
  -- rank again and again, until no pair of neighbours has a rank.
  pub merge_loop-Merges :
      (fuel : ℕ) (parts : List Bytes)
      → length parts ≤ fuel
      → Merges parts (merge_loop merge_ranks fuel parts)
  unfolding merge_loop Improves
  merge_loop-Merges zero [] h = merged tt
  merge_loop-Merges zero (p ∷ parts) h = absurd (omega arith)
  merge_loop-Merges (suc fuel) parts h =
      round (best_pair merge_ranks no_best 0 parts) (best_pair-Improves parts no_best 0)
        (λ j short. merge_loop-Merges fuel (merge_at j parts) short)
    where
      round :
          (best : Best)
          → Improves no_best 0 parts best
          → ((j : ℕ)
              → length (merge_at j parts) ≤ fuel
              → Merges (merge_at j parts) (merge_loop merge_ranks fuel (merge_at j parts)))
          → Merges parts (
              if ltb 1 (length parts) && best.found
              then merge_loop merge_ranks fuel (merge_at best.best_idx parts)
              else parts)
      round best (inl (same, least)) later =
          subst (Merges parts)
            (sym (skipped (ltb 1 (length parts)) best.found _ parts (ap (λ b. b.found) same)))
            (merged least)
      round best (inr (j, at, got, lower, is_best)) later =
          let many : ltb 1 (length parts) ≡ true =
            ground (arith, IsBest-many best.best_rank j parts is_best) in
          let short : length (merge_at j parts) ≤ fuel =
            omega (arith, length-merge_at best.best_rank j parts is_best) in
          let here : best.best_idx ≡ j = omega arith in
          rw (many, got, here) (merge_step best.best_rank j is_best lower (later j short))
