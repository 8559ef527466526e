-- ===== src/Average/Exact.antt =====
-- The average: the two variables of the loop stand for the sum of the elements read.
use Prim.Native.Nat.{◌/◌}
use native.Mathlib.Nat.{div-add-mod}
use microrev.Common.{
  ℕ, ◌+◌, ◌*◌, ◌^◌, ◌≤◌, ◌<◌, ◌≡◌, arith, some, suc, ◌%◌, Option, refl, List, [], ◌∷◌, lt→ltb,
  length,
}
use microrev.Common.Int.{ℤ, pos, pos_part, neg_part, sub_ℕ, ◌+ℤ◌, div_ℤ, mod_ℤ}
use microrev.Average.{Mean, step, loop, finish, avg_no_overflow}
use microrev.Average.Spill.{IsExact, div_mod_parts, +ℤ_scaled, step-IsExact}

-- The sum of the elements, with no bound on its size.
abbrev pub sum : List ℕ → ℕ
sum [] = 0
sum (x ∷ xs) = x + sum xs

-- Every element is small enough for the sum of a spilled accumulator and the element.
abbrev pub AllFit : ℕ → List ℕ → Type 0
AllFit size [] = Unit
AllFit size (x ∷ xs) = (x + size < 2 ^ 63) × AllFit size xs

loop-IsExact :
    (size total all : ℕ) (s : Mean) (xs : List ℕ)
    → 0 < size
    → AllFit size xs
    → total + sum xs ≡ all
    → IsExact size total s
    → IsExact size all (loop size s xs)
unfolding loop
loop-IsExact size total all s [] some_size fit e v = record {
  weight = omega (arith, v.weight);
  low = v.low;
  high = v.high;
}
loop-IsExact size total all s (x ∷ xs) some_size fit e v =
    loop-IsExact size (total + x) all (step size s x) xs some_size fit.1 (omega arith)
      (step-IsExact size total x s some_size fit.0 v)

sum-le : (size : ℕ) (xs : List ℕ) → AllFit size xs → sum xs ≤ length xs * 2 ^ 63
sum-le size [] fit = omega arith
sum-le size (x ∷ xs) fit = omega (arith, fit.0, sum-le size xs fit.1)

sub_ℕ-pos : (a b t : ℕ) → a ≡ t + b → sub_ℕ a b ≡ pos t
sub_ℕ-pos a b t e = ground arith

-- A long double of 64 bits of mantissa is exact to a half at least, up to 2^63: a quotient that is
-- rounded to it keeps its integer part, or gains one, and keeps it if the rest is at most a half.
pub record Rounds (quotient : ℤ → ℕ → ℤ) : Type 0 where
  pub rounded :
      (t d : ℕ)
      → 0 < d
      → t ≤ d * 2 ^ 63
      → (q : ℕ) × (quotient (pos t) d ≡ pos q)
        × (t / d ≤ q)
        × (q ≤ suc (t / d))
        × (2 * (t % d) ≤ d → q ≡ t / d)

-- The result is the quotient, or one more, which a rest of more than a half may make it.
abbrev pub Near : ℕ → ℕ → Option ℕ → Type 0
Near total size result =
    (q : ℕ) × (result ≡ some q)
    × (total / size ≤ q)
    × (q ≤ suc (total / size))
    × (2 * (total % size) ≤ size → q ≡ total / size)

-- The value returned is near the sum divided by the number of elements, once both are exact.
finish-Near :
    (quotient : ℤ → ℕ → ℤ)
    → Rounds quotient
    → (size total : ℕ) (s : Mean) → 0 < size
    → total ≤ size * 2 ^ 63
    → IsExact size total s
    → Near total size (finish quotient size s)
unfolding finish
finish-Near quotient rounds size total s some_size small v =
    let whole = s.res +ℤ div_ℤ s.accumulator size in
    let rest = mod_ℤ s.accumulator size in
    let numerator : sub_ℕ (pos_part whole * size + pos_part rest)
          (neg_part whole * size + neg_part rest)
        ≡ pos total =
      sub_ℕ-pos _ _ total (
        omega (
          arith,
          v.weight,
          div_mod_parts s.accumulator size,
          +ℤ_scaled size s.res (div_ℤ s.accumulator size),
        )) in
    let (q, is_q, low, high, exact) = rounds.rounded total size some_size small in
    let room : q < 2 ^ 64 = grind (arith, div-add-mod total size) in
    (q, rw (numerator, is_q, lt→ltb q (2 ^ 64) room) refl, low, high, exact)

-- The average of a vector with an element or more is its sum divided by its size, rounded down; if
-- the rest is more than half the size, it may be one more. This holds if each element plus the size
-- is below 2^63, so that no addition of the loop leaves intmax_t, and if a long double rounds a
-- quotient up to 2^63 to a half or better.
pub avg_no_overflow-sum :
    (quotient : ℤ → ℕ → ℤ)
    → Rounds quotient
    → (x : ℕ) (xs : List ℕ) → AllFit (length (x ∷ xs)) (x ∷ xs)
    → Near (sum (x ∷ xs)) (length (x ∷ xs)) (avg_no_overflow quotient (x ∷ xs))
unfolding avg_no_overflow
avg_no_overflow-sum quotient rounds x xs fit =
    let n = length (x ∷ xs) in
    finish-Near quotient rounds n (sum (x ∷ xs))
      (loop n (record { accumulator = pos 0; res = pos 0 }) (x ∷ xs)) (omega arith)
      (omega (arith, sum-le n (x ∷ xs) fit))
      (loop-IsExact n 0 (sum (x ∷ xs)) (record { accumulator = pos 0; res = pos 0 }) (x ∷ xs)
        (omega arith) fit (omega arith) (omega arith))
