-- ===== src/Sharding/Loads.antt =====
-- The order of the parameters, the rank with the fewest bytes, and the bytes that a rank owns.
use cverl.Base.{
  ℕ, zero, suc, ◌+◌, ◌≤◌, ◌<◌, ◌≡◌, ◌≢◌, refl, ap, sym, subst, ◌∙◌, inl, inr, Bool, true, false,
  List, [], ◌∷◌, ltb, ◌==◌, Bool-cases, if◌then◌else◌, length, set, range, All, All-range, arith,
}
use cverl.Sharding.Owners.{at, insert_by_size, sort_by_size, least_loaded}

pub at-set : (xs : List ℕ) (i v : ℕ) → i < length xs → at (set xs i v) i ≡ v
at-set [] i v h = absurd (omega arith)
at-set (x ∷ xs) zero v h = refl
at-set (x ∷ xs) (suc i) v h = at-set xs i v (omega arith)

pub at-set_other : (xs : List ℕ) (i v j : ℕ) → i ≢ j → at (set xs i v) j ≡ at xs j
at-set_other [] i v j h = refl
at-set_other (x ∷ xs) zero v zero h = absurd (h refl)
at-set_other (x ∷ xs) zero v (suc j) h = refl
at-set_other (x ∷ xs) (suc i) v zero h = refl
at-set_other (x ∷ xs) (suc i) v (suc j) h = at-set_other xs i v j (λ e. h (ap suc e))

-- The bytes that a rank owns of the parameters in a list of indices.
abbrev pub owned_bytes : List ℕ → List ℕ → ℕ → ℕ → ℕ
owned_bytes sizes owners rank i = if at owners i == rank then at sizes i else 0

unfoldable pub load_over : List ℕ → List ℕ → ℕ → List ℕ → ℕ
load_over sizes owners rank [] = 0
load_over sizes owners rank (i ∷ order) =
    owned_bytes sizes owners rank i + load_over sizes owners rank order

-- The rank that is found has the fewest bytes.
pub least_loaded-least :
    (bytes : List ℕ) (from count owner : ℕ)
    → owner < from
    → ((r : ℕ) → r < from → at bytes owner ≤ at bytes r)
    → (least_loaded bytes (range from count) owner < from + count)
      × ((r : ℕ)
          → r < from + count
          → at bytes (least_loaded bytes (range from count) owner) ≤ at bytes r)
unfolding least_loaded
least_loaded-least bytes from zero owner lt least = (omega arith, λ r h. least r (omega arith))
least_loaded-least bytes from (suc count) owner lt least =
    let next = if ltb (at bytes from) (at bytes owner) then from else owner in
    let (inside, fewest) =
      least_loaded-least bytes (from + 1) count next (ground arith)
        (λ r h. by_tests r h (ltb (at bytes from) (at bytes owner)) refl) in
    (omega arith, λ r h. fewest r (omega arith))
  where
    by_tests :
        (r : ℕ)
        → r < from + 1
        → (t : Bool) → ltb (at bytes from) (at bytes owner) ≡ t
        → at bytes (if t then from else owner) ≤ at bytes r
    by_tests r h t e = elim (Bool-cases (r == from)) [
      | inl same ↦
          let there : r ≡ from = ground arith in
          let to_from : at bytes (if t then from else owner) ≤ at bytes from = at_new t e in
          subst (λ k. at bytes (if t then from else owner) ≤ at bytes k) (sym there) to_from
      | inr other ↦ let before = least r (ground arith) in at_old t e before
    ]
      where
        at_new :
            (t : Bool)
            → ltb (at bytes from) (at bytes owner) ≡ t
            → at bytes (if t then from else owner) ≤ at bytes from
        at_new true e = omega arith
        at_new false e = ground arith

        at_old :
            (t : Bool)
            → ltb (at bytes from) (at bytes owner) ≡ t
            → at bytes owner ≤ at bytes r
            → at bytes (if t then from else owner) ≤ at bytes r
        at_old true e before = ground arith
        at_old false e before = before

-- Indices that are all different.
unfoldable pub Distinct : List ℕ → Type 0
Distinct [] = Unit
Distinct (i ∷ order) = All (λ j. i ≢ j) order × Distinct order

-- Sorting keeps what holds of every index, that they differ, and the loads.
module _ (sizes : List ℕ) where
  All-insert :
      (P : ℕ → Type 0) (i : ℕ) (order : List ℕ)
      → P i
      → All P order
      → All P (insert_by_size sizes i order)
  unfolding insert_by_size
  All-insert P i [] here h = (here, tt)
  All-insert P i (j ∷ order) here h =
      by_test (ltb (at sizes i) (at sizes j)) (All-insert P i order here h.1)
    where
      by_test :
          (t : Bool)
          → All P (insert_by_size sizes i order)
          → All P (if t then j ∷ insert_by_size sizes i order else i ∷ j ∷ order)
      by_test true rest = (h.0, rest)
      by_test false rest = (here, h)

  Distinct-insert :
      (i : ℕ) (order : List ℕ)
      → All (λ j. i ≢ j) order
      → Distinct order
      → Distinct (insert_by_size sizes i order)
  unfolding insert_by_size Distinct
  Distinct-insert i [] new h = (tt, tt)
  Distinct-insert i (j ∷ order) new h =
      by_test (ltb (at sizes i) (at sizes j)) (Distinct-insert i order new.1 h.1)
    where
      by_test :
          (t : Bool)
          → Distinct (insert_by_size sizes i order)
          → Distinct (if t then j ∷ insert_by_size sizes i order else i ∷ j ∷ order)
      by_test true rest = (All-insert (λ k. j ≢ k) i order (λ e. new.0 (sym e)) h.0, rest)
      by_test false rest = (new, h)

  load-insert :
      (owners : List ℕ) (rank i : ℕ) (order : List ℕ)
      → load_over sizes owners rank (insert_by_size sizes i order)
        ≡ owned_bytes sizes owners rank i + load_over sizes owners rank order
  unfolding insert_by_size load_over
  load-insert owners rank i [] = refl
  load-insert owners rank i (j ∷ order) =
      by_test (ltb (at sizes i) (at sizes j)) (load-insert owners rank i order)
    where
      by_test :
          (t : Bool)
          → load_over sizes owners rank (insert_by_size sizes i order)
            ≡ owned_bytes sizes owners rank i + load_over sizes owners rank order
          → load_over sizes owners rank
              (if t then j ∷ insert_by_size sizes i order else i ∷ j ∷ order)
            ≡ owned_bytes sizes owners rank i
              + (owned_bytes sizes owners rank j + load_over sizes owners rank order)
      by_test true rest = rw rest (omega arith)
      by_test false rest = refl

  pub load-sort :
      (owners : List ℕ) (rank : ℕ) (order : List ℕ)
      → load_over sizes owners rank (sort_by_size sizes order) ≡ load_over sizes owners rank order
  unfolding sort_by_size load_over
  load-sort owners rank [] = refl
  load-sort owners rank (i ∷ order) =
      load-insert owners rank i (sort_by_size sizes order)
      ∙ ap (λ n. owned_bytes sizes owners rank i + n) (load-sort owners rank order)

  pub All-sort : (P : ℕ → Type 0) (order : List ℕ) → All P order → All P (sort_by_size sizes order)
  unfolding sort_by_size
  All-sort P [] h = tt
  All-sort P (i ∷ order) h = All-insert P i (sort_by_size sizes order) h.0 (All-sort P order h.1)

  pub Distinct-sort : (order : List ℕ) → Distinct order → Distinct (sort_by_size sizes order)
  unfolding sort_by_size Distinct
  Distinct-sort [] h = tt
  Distinct-sort (i ∷ order) h =
      Distinct-insert i (sort_by_size sizes order) (All-sort (λ j. i ≢ j) order h.0)
        (Distinct-sort order h.1)

pub Distinct-range : (from count : ℕ) → Distinct (range from count)
unfolding Distinct
Distinct-range from zero = tt
Distinct-range from (suc count) = (
  All-range (λ j. from ≢ j) (from + 1) count (λ j a b e. absurd (omega arith)),
  Distinct-range (from + 1) count,
)
