-- ===== src/Base/Slices.antt =====
-- Slices of a list, `take n (drop k xs)`, and how they fall apart.
use Prim.Native.Nat.{ℕ, zero, suc, ◌+◌, ◌-◌, ◌*◌, ◌≤◌, ◌<◌, min}
use mathlib.Core.Path.{◌≡◌, refl, ap, sym, ◌∙◌}
use mathlib.Core.List.{List, [], ◌∷◌, ◌++◌, map, flat_map, append_assoc}
use native.Mathlib.Omega.{arith}
use cverl.Base.Every.{All}
use cverl.Base.Lists.{length, take, drop, replicate, range}

module _ {ℓ} {A : Type ℓ} where
  pub take-append_split :
      (k : ℕ) (xs ys : List A) → take k (xs ++ ys) ≡ take k xs ++ take (k - length xs) ys
  take-append_split zero xs ys = let e : 0 - length xs ≡ 0 = omega arith in rw e
  take-append_split (suc k) [] ys = let e : suc k - 0 ≡ suc k = omega arith in rw e
  take-append_split (suc k) (x ∷ xs) ys =
      let e : suc k - suc (length xs) ≡ k - length xs = omega arith in
      rw e (ap (◌∷◌ x) (take-append_split k xs ys))

  pub drop-append_split :
      (k : ℕ) (xs ys : List A) → drop k (xs ++ ys) ≡ drop k xs ++ drop (k - length xs) ys
  drop-append_split zero xs ys = let e : 0 - length xs ≡ 0 = omega arith in rw e
  drop-append_split (suc k) [] ys = let e : suc k - 0 ≡ suc k = omega arith in rw e
  drop-append_split (suc k) (x ∷ xs) ys =
      let e : suc k - suc (length xs) ≡ k - length xs = omega arith in
      rw e (drop-append_split k xs ys)

  pub drop-drop : (a b : ℕ) (xs : List A) → drop a (drop b xs) ≡ drop (b + a) xs
  drop-drop a zero xs = let e : 0 + a ≡ a = omega arith in rw e
  drop-drop zero (suc b) [] = let e : suc b + 0 ≡ suc b = omega arith in rw e
  drop-drop (suc a) (suc b) [] = let e : suc b + suc a ≡ suc (b + suc a) = omega arith in rw e
  drop-drop a (suc b) (x ∷ xs) =
      let e : suc b + a ≡ suc (b + a) = omega arith in rw e (drop-drop a b xs)

  pub take_add : (a b : ℕ) (xs : List A) → take a xs ++ take b (drop a xs) ≡ take (a + b) xs
  take_add zero b xs = let e : 0 + b ≡ b = omega arith in rw e
  take_add (suc a) zero [] = let e : suc a + 0 ≡ suc a = omega arith in rw e
  take_add (suc a) (suc b) [] = let e : suc a + suc b ≡ suc (a + suc b) = omega arith in rw e
  take_add (suc a) b (x ∷ xs) =
      let e : suc a + b ≡ suc (a + b) = omega arith in rw e (ap (◌∷◌ x) (take_add a b xs))

  -- Only what is there can be taken.
  pub take-min : (k : ℕ) (xs : List A) → take (min k (length xs)) xs ≡ take k xs
  take-min zero xs = let e : min 0 (length xs) ≡ 0 = omega arith in rw e
  take-min (suc k) [] = let e : min (suc k) 0 ≡ 0 = omega arith in rw e
  take-min (suc k) (x ∷ xs) =
      let e : min (suc k) (suc (length xs)) ≡ suc (min k (length xs)) = omega arith in
      rw e (ap (◌∷◌ x) (take-min k xs))

  pub take-replicate : (k n : ℕ) (a : A) → take k (replicate n a) ≡ replicate (min k n) a
  take-replicate zero n a = let e : min 0 n ≡ 0 = omega arith in rw e
  take-replicate (suc k) zero a = let e : min (suc k) 0 ≡ 0 = omega arith in rw e
  take-replicate (suc k) (suc n) a =
      let e : min (suc k) (suc n) ≡ suc (min k n) = omega arith in
      rw e (ap (◌∷◌ a) (take-replicate k n a))

  pub drop-replicate : (k n : ℕ) (a : A) → drop k (replicate n a) ≡ replicate (n - k) a
  drop-replicate zero n a = let e : n - 0 ≡ n = omega arith in rw e
  drop-replicate (suc k) zero a = let e : 0 - suc k ≡ 0 = omega arith in rw e
  drop-replicate (suc k) (suc n) a =
      let e : suc n - suc k ≡ n - k = omega arith in rw e (drop-replicate k n a)

  -- Consecutive blocks of one size make up the whole.
  pub flat_map-blocks :
      (size : ℕ) (xs : List A) (from count : ℕ)
      → flat_map (λ r. take size (drop (r * size) xs)) (range from count)
        ≡ take (count * size) (drop (from * size) xs)
  unfolding flat_map
  flat_map-blocks size xs from zero = let e : 0 * size ≡ 0 = omega arith in rw e
  flat_map-blocks size xs from (suc count) =
      let e : suc count * size ≡ size + count * size = omega arith in
      let next : (from + 1) * size ≡ from * size + size = omega arith in
      ap (◌++◌ (take size (drop (from * size) xs))) (flat_map-blocks size xs (from + 1) count)
      ∙ rw (e, next, sym (drop-drop size (from * size) xs))
          (take_add size (count * size) (drop (from * size) xs))

module _ {ℓ κ} {A : Type ℓ} {B : Type κ} (f : A → B) where
  pub map-take : (k : ℕ) (xs : List A) → map f (take k xs) ≡ take k (map f xs)
  map-take zero xs = refl
  map-take (suc k) [] = refl
  map-take (suc k) (x ∷ xs) = ap (◌∷◌ (f x)) (map-take k xs)

  pub map-drop : (k : ℕ) (xs : List A) → map f (drop k xs) ≡ drop k (map f xs)
  map-drop zero xs = refl
  map-drop (suc k) [] = refl
  map-drop (suc k) (x ∷ xs) = map-drop k xs

-- Two functions that agree over a range.
pub flat_map-range {ℓ} :
    {A : Type ℓ} (f g : ℕ → List A) (from count : ℕ)
    → ((r : ℕ) → from ≤ r → r < from + count → f r ≡ g r)
    → flat_map f (range from count) ≡ flat_map g (range from count)
unfolding flat_map
flat_map-range f g from zero h = refl
flat_map-range f g from (suc count) h =
    ap (λ xs. xs ++ flat_map f (range (from + 1) count)) (h from (omega arith) (omega arith))
    ∙ ap (◌++◌ (g from))
        (flat_map-range f g (from + 1) count (λ r a b. h r (omega arith) (omega arith)))

module _ {ℓ κ} {A : Type ℓ} {B : Type κ} (f : A → List B) where
  pub flat_map-append : (xs ys : List A) → flat_map f (xs ++ ys) ≡ flat_map f xs ++ flat_map f ys
  unfolding flat_map
  flat_map-append [] ys = refl
  flat_map-append (x ∷ xs) ys =
      ap (◌++◌ (f x)) (flat_map-append xs ys)
      ∙ sym (append_assoc (f x) (flat_map f xs) (flat_map f ys))

  pub flat_map-map {ι} :
      {C : Type ι} (g : C → A) (xs : List C) → flat_map f (map g xs) ≡ flat_map (λ x. f (g x)) xs
  unfolding flat_map
  flat_map-map g [] = refl
  flat_map-map g (x ∷ xs) = ap (◌++◌ (f (g x))) (flat_map-map g xs)

-- A loop that appends one thing to another for each element.
pub flat_map-All {ℓ κ} :
    {A : Type ℓ} {B : Type κ} (f g : A → List B) (xs : List A)
    → All (λ x. f x ≡ g x) xs
    → flat_map f xs ≡ flat_map g xs
unfolding flat_map
flat_map-All f g [] h = refl
flat_map-All f g (x ∷ xs) h =
    ap (λ y. y ++ flat_map f xs) h.0 ∙ ap (◌++◌ (g x)) (flat_map-All f g xs h.1)
