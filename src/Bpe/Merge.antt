-- ===== src/Bpe/Merge.antt =====
-- The merge loop of bpe_encode_pretoken.
use cverl.Base.{
  ℕ, zero, suc, ◌+◌, Bool, true, false, ◌&&◌, Option, none, some, List, [], ◌∷◌, ◌++◌, ltb,
  if◌then◌else◌, length, Bytes,
}

-- std::numeric_limits<int32_t>::max().
abbrev pub int32_max : ℕ
int32_max = 2147483647

-- The map `merge_ranks`; a rank counts up from 0.
abbrev pub Ranks : Type 0
Ranks = Bytes → Bytes → Option ℕ

pub record Best : Type 0 where
  pub best_rank : ℕ
  pub best_idx : ℕ
  pub found : Bool

abbrev pub no_best : Best
no_best = record { best_rank = int32_max; best_idx = 0; found = false }

-- One round of the loop over i.
abbrev pub better : Best → ℕ → Option ℕ → Best
better best i none = best
better best i (some rank) =
    if ltb rank best.best_rank
    then record { best_rank = rank; best_idx = i; found = true }
    else best

-- for (size_t i = 0; i + 1 < parts.size(); ++i), over the parts from i on.
unfoldable pub best_pair : Ranks → Best → ℕ → List Bytes → Best
best_pair merge_ranks best i [] = best
best_pair merge_ranks best i (p ∷ []) = best
best_pair merge_ranks best i (p ∷ q ∷ parts) =
    best_pair merge_ranks (better best i (merge_ranks p q)) (i + 1) (q ∷ parts)

-- A part is joined with the next one, which is erased.
abbrev pub merge_at : ℕ → List Bytes → List Bytes
merge_at zero (p ∷ q ∷ parts) = (p ++ q) ∷ parts
merge_at (suc i) (p ∷ parts) = p ∷ merge_at i parts
merge_at i parts = parts

-- while (parts.size() > 1); the fuel is the number of parts.
unfoldable pub merge_loop : Ranks → ℕ → List Bytes → List Bytes
merge_loop merge_ranks zero parts = parts
merge_loop merge_ranks (suc fuel) parts =
    let best = best_pair merge_ranks no_best 0 parts in
    let rest = merge_loop merge_ranks fuel (merge_at best.best_idx parts) in
    if ltb 1 (length parts) && best.found then rest else parts
