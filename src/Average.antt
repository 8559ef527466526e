-- ===== src/Average.antt =====
-- src/library/lib/benchmark_helpers.cpp: `avg_no_overflow`, the average of a vector of cycle counts.
-- `accumulator` is an intmax_t of 64 bits and the elements are uint64_t, so that C++ compares and
-- adds them as unsigned numbers: `to_u64` and `from_u64` are these conversions. In the loop the
-- long double `res` is an integer, which it holds exactly; at the end a fraction is added, and what
-- a conversion to an integer makes of the long double is the argument `quotient`.
pub mod Exact
mod Spill
mod Tests
use microrev.Common.{
  ℕ, ◌+◌, ◌-◌, ◌*◌, ◌%◌, ◌^◌, Bool, ◌&&◌, Option, none, some, List, [], ◌∷◌, ltb, if◌then◌else◌,
  length,
}
use microrev.Common.Int.{ℤ, pos, negsuc, pos_part, neg_part, sub_ℕ, ◌+ℤ◌, ◌-ℤ◌, ltb_ℤ, div_ℤ, mod_ℤ}

-- `static_cast<uint64_t>`
abbrev pub to_u64 : ℤ → ℕ
to_u64 (pos n) = n % 2 ^ 64
to_u64 (negsuc n) = 2 ^ 64 - 1 - n % 2 ^ 64

-- `static_cast<intmax_t>` of a uint64_t
abbrev pub from_u64 : ℕ → ℤ
from_u64 w = if ltb w (2 ^ 63) then pos w else negsuc (2 ^ 64 - w - 1)

-- `snl::max()` and `snl::min()`
abbrev pub int_max : ℤ
int_max = pos (2 ^ 63 - 1)

abbrev pub int_min : ℤ
int_min = negsuc (2 ^ 63 - 1)

-- The two variables of the loop.
pub record Mean : Type 0 where
  pub accumulator : ℤ
  pub res : ℤ

-- The two tests: would `accumulator + *first` leave the range of intmax_t?
abbrev pub underflows : Mean → ℕ → Bool
underflows s first = ltb_ℤ s.accumulator (pos 0) && ltb first (to_u64 (int_min -ℤ s.accumulator))

abbrev pub overflows : Mean → ℕ → Bool
overflows s first = ltb_ℤ (pos 0) s.accumulator && ltb (to_u64 (int_max -ℤ s.accumulator)) first

-- Moves whole multiples of `size` out of the accumulator, and leaves it near 0 on the other side.
pub spill_up : ℕ → Mean → Mean
spill_up size s = record {
  accumulator = mod_ℤ s.accumulator size +ℤ pos size;
  res = s.res +ℤ (div_ℤ s.accumulator size -ℤ pos 1);
}

pub spill_down : ℕ → Mean → Mean
spill_down size s = record {
  accumulator = mod_ℤ s.accumulator size -ℤ pos size;
  res = s.res +ℤ (div_ℤ s.accumulator size +ℤ pos 1);
}

pub spill : ℕ → Mean → ℕ → Mean
unfolding spill_up spill_down
spill size s first =
    if underflows s first
    then spill_up size s
    else (if overflows s first then spill_down size s else s)

-- One round of the loop, for the element `first`.
pub step : ℕ → Mean → ℕ → Mean
unfolding spill
step size s first =
    let s' = spill size s first in
    record s' { accumulator = from_u64 ((to_u64 s'.accumulator + first) % 2 ^ 64) }

pub loop : ℕ → Mean → List ℕ → Mean
unfolding step
loop size s [] = s
loop size s (first ∷ rest) = loop size (step size s first) rest

-- Conversion of a truncated long double to uint64_t: undefined outside the range of the type.
abbrev pub narrow : ℤ → Option ℕ
narrow (pos n) = if ltb n (2 ^ 64) then some n else none
narrow (negsuc n) = none

-- `res += accumulator / size; res += (accumulator % size) / size; return res;`
-- `quotient` is the long double for a fraction, without its digits behind the point.
pub finish : (ℤ → ℕ → ℤ) → ℕ → Mean → Option ℕ
finish quotient size s =
    let whole = s.res +ℤ div_ℤ s.accumulator size in
    let rest = mod_ℤ s.accumulator size in
    let numerator =
      sub_ℕ (pos_part whole * size + pos_part rest) (neg_part whole * size + neg_part rest) in
    narrow (quotient numerator size)

pub avg_no_overflow : (ℤ → ℕ → ℤ) → List ℕ → Option ℕ
unfolding loop finish div_ℤ mod_ℤ ◌+ℤ◌ ◌-ℤ◌
avg_no_overflow quotient [] = some 0
avg_no_overflow quotient (x ∷ xs) =
    let size = length (x ∷ xs) in
    finish quotient size (loop size (record { accumulator = pos 0; res = pos 0 }) (x ∷ xs))
