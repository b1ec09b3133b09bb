-- ===== src/Base/Exceptions.antt =====
-- C++ exceptions as values. The kinds are the standard exception classes that the sources throw;
-- the message texts are not modelled.
use mathlib.Core.Path.{◌≡◌, refl}
use mathlib.Core.List.{List, [], ◌∷◌}
use mathlib.Core.Bool.{Bool, true, false}
use native.Mathlib.Omega.{arith}
use Prim.Native.Nat.{ℕ, zero, suc, ◌+◌, ◌≤◌, ◌<◌}
use mathlib.Core.List.{map}
use cverl.Base.Lists.{range}

pub data Error : Type 0 where
  invalid_argument out_of_range length_error runtime_error : Error

-- What a call leaves: an exception that propagates, or its value.
pub data Result {ℓ} (V : Type ℓ) : Type ℓ where
  err : Error → Result V
  ok : V → Result V

-- if (bad) throw e;
abbrev pub throw_if : Bool → Error → Result (Unit {0})
throw_if bad e = elim bad [ true ↦ err e | false ↦ ok tt ]

infixl 5 ◌>>=◌
abbrev pub ◌>>=◌ {ℓ κ} : {V : Type ℓ} {W : Type κ} → Result V → (V → Result W) → Result W
err e >>= next = err e
ok v >>= next = next v

infixl 5 ◌>>◌
abbrev pub ◌>>◌ {κ} : {W : Type κ} → Result (Unit {0}) → Result W → Result W
check >> next = check >>= (λ done. next)

-- A call that returned had its first part return.
pub >>=-eq-ok {ℓ κ} :
    {V : Type ℓ} {W : Type κ} (call : Result V) (next : V → Result W) {w : W}
    → (call >>= next) ≡ ok w
    → (v : V) × (call ≡ ok v) × (next v ≡ ok w)
>>=-eq-ok (err e) next returned = cc
>>=-eq-ok (ok v) next returned = (v, refl, returned)

-- A loop that pushes the result of one fallible call for each element.
unfoldable pub map_result {ℓ κ} :
    {A : Type ℓ} {B : Type κ} → (A → Result B) → List A → Result (List B)
map_result f [] = ok []
map_result f (x ∷ xs) = do y ← f x; ys ← map_result f xs; ok (y ∷ ys)

-- Inversion of a guard, and of what runs before the rest.
pub >>-eq-ok {ℓ} :
    {B : Type ℓ} (m : Result (Unit {0})) (k : Result B) {b : B}
    → (m >> k) ≡ ok b
    → (m ≡ ok tt) × (k ≡ ok b)
>>-eq-ok (ok tt) k h = (refl, h)
>>-eq-ok (err e) k h = cc

pub throw_if-eq-ok : (b : Bool) (e : Error) → throw_if b e ≡ ok tt → b ≡ false
throw_if-eq-ok true e h = cc
throw_if-eq-ok false e h = refl

-- A loop over a range none of whose calls throws.
pub map_result-range {ℓ} :
    {B : Type ℓ} (f : ℕ → Result B) (g : ℕ → B) (from count : ℕ)
    → ((i : ℕ) → from ≤ i → i < from + count → f i ≡ ok (g i))
    → map_result f (range from count) ≡ ok (map g (range from count))
unfolding map_result
map_result-range f g from zero h = refl
map_result-range f g from (suc count) h = rw (
  h from (omega arith) (omega arith),
  map_result-range f g (from + 1) count (λ i a b. h i (omega arith) (omega arith)),
)

pub ok-injective {ℓ} : {A : Type ℓ} {a b : A} → ok a ≡ ok b → a ≡ b
ok-injective h = cc

-- A call whose rest splits in two splits in two.
pub >>=-regroup {ℓ κ ι} :
    {A : Type ℓ} {B : Type κ} {C : Type ι} (m : Result A) (f : A → Result C) (g : A → Result B)
    (k : B → Result C)
    → ((a : A) → f a ≡ (g a >>= k))
    → (m >>= f) ≡ ((m >>= g) >>= k)
>>=-regroup (ok a) f g k h = h a
>>=-regroup (err e) f g k h = refl
