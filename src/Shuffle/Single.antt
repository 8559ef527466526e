-- ===== src/Shuffle/Single.antt =====
-- `shuffle_array` as a whole: it never leaves the bounds of a vector that has an element, and what
-- it leaves is a single cycle through all of its places (Sattolo's algorithm, with a candidate list).
use microrev.Common.{ℕ, ◌-◌, ◌≤◌, ◌≡◌, refl, arith, List, ◌∷◌, length, ◌<◌, ◌^◌, lt→ltb}
use microrev.Shuffle.{candidates_from, shuffle_array}
use microrev.Shuffle.Order.{
  has-candidates_from, candidates_from-Distinct, candidates_from-Below, length-candidates_from,
}
use microrev.Shuffle.Cycle.{Closes, shuffle_loop-Closes}

module _ {ℓ} {A : Type ℓ} (dist : ℕ → ℕ → ℕ)
    (in_range : (round bound : ℕ) → dist round bound ≤ bound) where
  -- The shuffle of a vector with an element or more, and fewer than 2^31, if the distribution keeps to
  -- its range, overflows no `int`, reads
  -- and writes within bounds and ends. From place 0 on, each place holds the old element of the next
  -- place on a path through all the other places, each once, and the last one the old element 0.
  pub shuffle_array-Closes :
      (x : A) (xs : List A)
      → length (x ∷ xs) < 2 ^ 31
      → Closes (x ∷ xs) (x ∷ xs) 0 (candidates_from 1 (length xs)) (shuffle_array dist (x ∷ xs))
  unfolding shuffle_array
  shuffle_array-Closes x xs small =
      let rounds : length (x ∷ xs) - 1 ≡ length xs = omega arith in
      rw (lt→ltb (length (x ∷ xs)) (2 ^ 31) small, rounds)
        (shuffle_loop-Closes dist in_range (length xs) 0 (x ∷ xs) (candidates_from 1 (length xs)) 0
          (x ∷ xs) (length-candidates_from 1 (length xs)) (candidates_from-Distinct 1 (length xs))
          (candidates_from-Below (length (x ∷ xs)) 1 (length xs) (omega arith))
          (has-candidates_from 0 1 (length xs) (omega arith)) (omega arith) refl)
