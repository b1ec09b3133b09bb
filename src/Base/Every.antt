-- ===== src/Base/Every.antt =====
-- A predicate that holds of every element of a list, by recursion, so that the tactics read it.
use mathlib.Core.List.{List, [], ◌∷◌, ◌++◌, map, flat_map}
use Prim.Native.Nat.{ℕ, zero, suc, ◌+◌, ◌≤◌, ◌<◌}
use mathlib.Core.Path.{◌≡◌, refl}
use native.Mathlib.Omega.{arith}
use cverl.Base.Exceptions.{Result, ok, map_result}
use cverl.Base.Lists.{range, take, drop}

abbrev pub All {ℓ κ} : {A : Type ℓ} → (A → Type κ) → List A → Type κ
All P [] = Unit
All P (x ∷ xs) = P x × All P xs

module _ {ℓ κ} {A : Type ℓ} (P : A → Type κ) where
  pub All-append : (xs ys : List A) → All P xs → All P ys → All P (xs ++ ys)
  All-append [] ys h k = k
  All-append (x ∷ xs) ys h k = (h.0, All-append xs ys h.1 k)

  pub All-map {ι} :
      {B : Type ι} (f : B → A) (xs : List B) → All (λ x. P (f x)) xs → All P (map f xs)
  All-map f [] h = tt
  All-map f (x ∷ xs) h = (h.0, All-map f xs h.1)

  pub All-flat_map {ι} :
      {B : Type ι} (f : B → List A) (xs : List B)
      → All (λ x. All P (f x)) xs
      → All P (flat_map f xs)
  unfolding flat_map
  All-flat_map f [] h = tt
  All-flat_map f (x ∷ xs) h = All-append (f x) (flat_map f xs) h.0 (All-flat_map f xs h.1)

  pub All-drop : (n : ℕ) (xs : List A) → All P xs → All P (drop n xs)
  All-drop zero xs h = h
  All-drop (suc n) [] h = tt
  All-drop (suc n) (x ∷ xs) h = All-drop n xs h.1

  pub All-take : (n : ℕ) (xs : List A) → All P xs → All P (take n xs)
  All-take zero xs h = tt
  All-take (suc n) [] h = tt
  All-take (suc n) (x ∷ xs) h = (h.0, All-take n xs h.1)

  pub All-of : (xs : List A) → ((x : A) → P x) → All P xs
  All-of [] h = tt
  All-of (x ∷ xs) h = (h x, All-of xs h)

pub All-range {κ} :
    (P : ℕ → Type κ) (from count : ℕ)
    → ((i : ℕ) → from ≤ i → i < from + count → P i)
    → All P (range from count)
All-range P from zero h = tt
All-range P from (suc count) h = (
  h from (omega arith) (omega arith),
  All-range P (from + 1) count (λ i a b. h i (omega arith) (omega arith)),
)

-- A loop none of whose calls throws.
pub map_result-All {ℓ κ} :
    {A : Type ℓ} {B : Type κ} (f : A → Result B) (g : A → B) (xs : List A)
    → All (λ x. f x ≡ ok (g x)) xs
    → map_result f xs ≡ ok (map g xs)
unfolding map_result
map_result-All f g [] h = refl
map_result-All f g (x ∷ xs) h = rw (h.0, map_result-All f g xs h.1)
