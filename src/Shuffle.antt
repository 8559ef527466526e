-- ===== src/Shuffle.antt =====
-- src/library/include/shuffle.h: `shuffle_array`, which permutes a vector along a single cycle.
-- The engine and the distribution of the standard library are the parameter `dist`: `dist k b` is
-- the number that round k draws from [0, b]. `none` is an access out of the bounds of a vector, or an
-- overflow of an `int`.
pub mod Order
pub mod Cycle
pub mod Single
mod Tests
use microrev.Common.{
  ℕ, zero, suc, ◌+◌, ◌-◌, Option, none, some, List, [], ◌∷◌, ◌==◌, if◌then◌else◌, length, get_elem?,
  set, Bool, ltb, ◌^◌,
}

-- The loops count an `int` from 1 to `arr.size()`, and the indices that they draw and store are `int`s
-- below that; a size of 2^31 or more is not reached.
abbrev pub counts_up : ℕ → Bool
counts_up size = ltb size (2 ^ 31)

-- `for( int i = 1; i < arr.size(); i++ ) candidates.push_back( i )`, with `count` rounds left
abbrev pub candidates_from : ℕ → ℕ → List ℕ
candidates_from i zero = []
candidates_from i (suc count) = i ∷ candidates_from (suc i) count

-- `candidates.erase( std::remove( …, next ), … )`: every occurrence goes.
pub erase_all : ℕ → List ℕ → List ℕ
erase_all x [] = []
erase_all x (y ∷ ys) = let rest = erase_all x ys in if y == x then rest else y ∷ rest

module _ {ℓ} {A : Type ℓ} where
  -- `arr[i] = v`
  pub store : List A → ℕ → Option A → Option (List A)
  store arr i none = none
  store arr i (some v) = elim (get_elem? arr i) [ none ↦ none | some _ ↦ some (set arr i v) ]

  -- `arr[curr] = copied[0]`, after the loop
  abbrev pub close_cycle : List A → Option (ℕ × List A) → Option (List A)
  close_cycle copied none = none
  close_cycle copied (some (curr, arr)) = store arr curr (get_elem? copied 0)

  module _ (dist : ℕ → ℕ → ℕ) where
    -- The second loop, with `count` rounds left; `round` counts the draws.
    pub shuffle_loop : ℕ → ℕ → List A → List ℕ → ℕ → List A → Option (ℕ × List A)
    unfolding store
    shuffle_loop zero round copied candidates curr arr = some (curr, arr)
    shuffle_loop (suc count) round copied candidates curr arr =
        elim (get_elem? candidates (dist round (length candidates - 1))) [
          | none ↦ none
          | some next ↦ elim (store arr curr (get_elem? copied next)) [
            | none ↦ none
            | some arr' ↦
                shuffle_loop count (suc round) copied (erase_all next candidates) next arr'
          ]
        ]

    unfoldable pub shuffle_array : List A → Option (List A)
    unfolding shuffle_loop store erase_all
    shuffle_array arr =
        if counts_up (length arr)
        then close_cycle arr
            (shuffle_loop (length arr - 1) 0 arr (candidates_from 1 (length arr - 1)) 0 arr)
        else none
