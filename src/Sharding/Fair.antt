-- ===== src/Sharding/Fair.antt =====
-- The loop over the parameters keeps the ranks about equal.
use cverl.Base.{
  ℕ, zero, suc, ◌+◌, ◌-◌, ◌≤◌, ◌<◌, ◌≡◌, ◌≢◌, refl, ap, sym, subst, ◌∙◌, inl, inr, List, [], ◌∷◌,
  ◌==◌, Bool-cases, if◌then◌else◌, length, length-set, set, replicate, range, All, arith,
}
use cverl.Sharding.Owners.{at, least_loaded, Owners, own, own_all}
use cverl.Sharding.Loads.{
  at-set, at-set_other, least_loaded-least, Distinct, load_over, owned_bytes,
}

at-set_below : (xs : List ℕ) (i v j d : ℕ) → at xs j < d → v < d → at (set xs i v) j < d
at-set_below [] i v j d h k = h
at-set_below (x ∷ xs) zero v zero d h k = k
at-set_below (x ∷ xs) zero v (suc j) d h k = h
at-set_below (x ∷ xs) (suc i) v zero d h k = h
at-set_below (x ∷ xs) (suc i) v (suc j) d h k = at-set_below xs i v j d h k

-- Adding to an element makes no element smaller.
at-set_more : (xs : List ℕ) (i more j : ℕ) → at xs j ≤ at (set xs i (at xs i + more)) j
at-set_more [] i more j = omega arith
at-set_more (x ∷ xs) zero more zero = omega arith
at-set_more (x ∷ xs) zero more (suc j) = omega arith
at-set_more (x ∷ xs) (suc i) more zero = omega arith
at-set_more (x ∷ xs) (suc i) more (suc j) = at-set_more xs i more j

pub at-replicate : (n j : ℕ) → at (replicate n 0) j ≡ 0
at-replicate zero j = refl
at-replicate (suc n) zero = refl
at-replicate (suc n) (suc j) = at-replicate n j

module _ (sizes : List ℕ) (ranks : ℕ) (some_rank : 0 < ranks) (largest : ℕ) where
  -- No rank has more than the largest size above another.
  pub record IsFair (owners : Owners) : Type 0 where
    pub all_ranks : length owners.bytes_by_rank ≡ ranks
    pub all_parameters : length owners.owner_by_parameter ≡ length sizes
    pub owned_by_rank : (i : ℕ) → at owners.owner_by_parameter i < ranks
    pub fair :
        (a b : ℕ)
        → a < ranks
        → b < ranks
        → at owners.bytes_by_rank a ≤ at owners.bytes_by_rank b + largest

  abbrev owner_in : Owners → ℕ
  owner_in owners = least_loaded owners.bytes_by_rank (range 1 (ranks - 1)) 0

  owner_least :
      (owners : Owners)
      → (owner_in owners < ranks)
        × ((r : ℕ)
            → r < ranks
            → at owners.bytes_by_rank (owner_in owners) ≤ at owners.bytes_by_rank r)
  owner_least owners =
      let (inside, fewest) =
        least_loaded-least owners.bytes_by_rank 1 (ranks - 1) 0 (omega arith) (λ r h.
          subst (λ k. at owners.bytes_by_rank 0 ≤ at owners.bytes_by_rank k) (zero_of r h)
            (omega arith)) in
      (omega arith, λ r h. fewest r (omega arith))
    where
      zero_of : (r : ℕ) → r < 1 → 0 ≡ r
      zero_of r h = omega arith

  own-IsFair :
      (i : ℕ) (owners : Owners)
      → at sizes i ≤ largest
      → IsFair owners
      → IsFair (own sizes ranks i owners)
  unfolding own
  own-IsFair i owners small h =
      let (inside, fewest) = owner_least owners in
      record {
        all_ranks = length-set owners.bytes_by_rank (owner_in owners) _ ∙ h.all_ranks;
        all_parameters = length-set owners.owner_by_parameter i _ ∙ h.all_parameters;
        owned_by_rank = λ j.
            at-set_below owners.owner_by_parameter i (owner_in owners) j ranks (h.owned_by_rank j)
              inside;
        fair = by_owner inside fewest;
      }
    where
      after : List ℕ
      after =
          set owners.bytes_by_rank (owner_in owners)
            (at owners.bytes_by_rank (owner_in owners) + at sizes i)

      by_owner :
          owner_in owners < ranks
          → ((r : ℕ)
              → r < ranks
              → at owners.bytes_by_rank (owner_in owners) ≤ at owners.bytes_by_rank r)
          → (a b : ℕ) → a < ranks
          → b < ranks
          → at after a ≤ at after b + largest
      by_owner inside fewest a b a_lt b_lt =
          let more = at-set_more owners.bytes_by_rank (owner_in owners) (at sizes i) b in
          let before = h.fair a b a_lt b_lt in
          let least = fewest b b_lt in
          elim (Bool-cases (owner_in owners == a)) [
            | inl same ↦
                let here : owner_in owners ≡ a = ground arith in
                let size = h.all_ranks in
                let new : at after (owner_in owners)
                    ≡ at owners.bytes_by_rank (owner_in owners) + at sizes i =
                  at-set owners.bytes_by_rank (owner_in owners) _ (omega arith) in
                subst (λ k. at after k ≤ at after b + largest) here (omega arith)
            | inr other ↦
                let away : owner_in owners ≢ a = ground arith in
                let old =
                  at-set_other owners.bytes_by_rank (owner_in owners)
                    (at owners.bytes_by_rank (owner_in owners) + at sizes i) a away in
                omega arith
          ]

  pub own_all-IsFair :
      (order : List ℕ) (owners : Owners)
      → All (λ i. at sizes i ≤ largest) order
      → IsFair owners
      → IsFair (own_all sizes ranks order owners)
  unfolding own_all
  own_all-IsFair [] owners small h = h
  own_all-IsFair (i ∷ order) owners small h =
      own_all-IsFair order (own sizes ranks i owners) small.1 (own-IsFair i owners small.0 h)

  -- Parameters that are not in the order keep their owners.
  owner_kept :
      (order : List ℕ) (owners : Owners) (i : ℕ)
      → All (λ j. i ≢ j) order
      → at (own_all sizes ranks order owners).owner_by_parameter i ≡ at owners.owner_by_parameter i
  unfolding own_all own
  owner_kept [] owners i h = refl
  owner_kept (j ∷ order) owners i h =
      owner_kept order (own sizes ranks j owners) i h.1
      ∙ at-set_other owners.owner_by_parameter j (owner_in owners) i (λ e. h.0 (sym e))

  owner-own :
      (i : ℕ) (owners : Owners)
      → IsFair owners
      → i < length sizes
      → at (own sizes ranks i owners).owner_by_parameter i ≡ owner_in owners
  unfolding own
  owner-own i owners h lt =
      let size = h.all_parameters in
      at-set owners.owner_by_parameter i (owner_in owners) (omega arith)

  bytes-own :
      (i rank : ℕ) (owners : Owners)
      → IsFair owners
      → at (own sizes ranks i owners).bytes_by_rank rank
        ≡ at owners.bytes_by_rank rank + (if owner_in owners == rank then at sizes i else 0)
  unfolding own
  bytes-own i rank owners h = elim (Bool-cases (owner_in owners == rank)) [
    | inl same ↦
        let here : owner_in owners ≡ rank = ground arith in
        let size = h.all_ranks in
        let lower = (owner_least owners).0 in
        let new : at
              (set owners.bytes_by_rank (owner_in owners)
                (at owners.bytes_by_rank (owner_in owners) + at sizes i))
              (owner_in owners)
            ≡ at owners.bytes_by_rank (owner_in owners) + at sizes i =
          at-set owners.bytes_by_rank (owner_in owners) _ (omega arith) in
        rw same (
          subst
            (λ k.
              at
                (set owners.bytes_by_rank (owner_in owners)
                  (at owners.bytes_by_rank (owner_in owners) + at sizes i))
                k
              ≡ at owners.bytes_by_rank k + at sizes i)
            here new)
    | inr other ↦
        let away : owner_in owners ≢ rank = ground arith in
        rw other (at-set_other owners.bytes_by_rank (owner_in owners) _ rank away ∙ omega arith)
  ]

  -- A rank's bytes are those that it had and those of the parameters in the order that it owns.
  pub bytes-own_all :
      (order : List ℕ) (owners : Owners) (rank : ℕ)
      → IsFair owners
      → All (λ i. at sizes i ≤ largest) order
      → All (λ i. i < length sizes) order
      → Distinct order
      → rank < ranks
      → at (own_all sizes ranks order owners).bytes_by_rank rank
        ≡ at owners.bytes_by_rank rank
          + load_over sizes (own_all sizes ranks order owners).owner_by_parameter rank order
  unfolding own_all load_over Distinct
  bytes-own_all [] owners rank h small inside distinct lt = omega arith
  bytes-own_all (i ∷ order) owners rank h small inside distinct lt =
      let next = own sizes ranks i owners in
      let last = (own_all sizes ranks order next).owner_by_parameter in
      let others =
        bytes-own_all order next rank (own-IsFair i owners small.0 h) small.1 inside.1 distinct.1
          lt in
      let whose : at last i ≡ owner_in owners =
        owner_kept order next i distinct.0 ∙ owner-own i owners h inside.0 in
      let here : at next.bytes_by_rank rank
          ≡ at owners.bytes_by_rank rank + owned_bytes sizes last rank i =
        bytes-own i rank owners h
        ∙ ap (λ k. at owners.bytes_by_rank rank + (if k == rank then at sizes i else 0))
            (sym whose) in
      others ∙ ap (λ n. n + load_over sizes last rank order) here ∙ omega arith
