-- ===== src/Shuffle/Tests.antt =====
-- `shuffle_array` at concrete vectors, with a distribution that draws the least or the last place.
use microrev.Common.{ℕ, ◌≡◌, refl, arith, some, List, [], ◌∷◌}
use microrev.Shuffle.{candidates_from, shuffle_array}
use microrev.Shuffle.Cycle.{Closes}
use microrev.Shuffle.Single.{shuffle_array-Closes}

abbrev numbers : List ℕ
numbers = 10 ∷ 11 ∷ 12 ∷ 13 ∷ []

draw_first : shuffle_array (λ k b. 0) numbers ≡ some (11 ∷ 12 ∷ 13 ∷ 10 ∷ [])
unfolding shuffle_array
draw_first = refl

draw_last : shuffle_array (λ k b. b) numbers ≡ some (13 ∷ 10 ∷ 11 ∷ 12 ∷ [])
unfolding shuffle_array
draw_last = refl

shuffle_array-Closes_example :
    Closes numbers numbers 0 (candidates_from 1 3) (shuffle_array (λ k b. b) numbers)
shuffle_array-Closes_example =
    shuffle_array-Closes (λ k b. b) (λ k b. omega arith) 10 (11 ∷ 12 ∷ 13 ∷ []) (omega arith)
