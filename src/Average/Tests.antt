-- ===== src/Average/Tests.antt =====
-- `avg_no_overflow` at concrete vectors.
use microrev.Common.{
  suc, ◌*◌, ◌%◌, ltb, lt→ltb, le→ltb_false, dec_lt, ℕ, if◌then◌else◌, ◌+◌, ◌-◌, ◌/◌, ◌^◌, ◌≡◌, refl,
  arith, some, [], ◌∷◌,
}
use microrev.Common.Int.{ℤ, pos, negsuc, div_ℤ}
use microrev.Average.{avg_no_overflow}
use microrev.Average.Exact.{Rounds, Near, avg_no_overflow-sum}

-- Two elements whose sum leaves intmax_t: the loop spills once.
average_spills : avg_no_overflow div_ℤ ((2 ^ 63 - 10) ∷ (2 ^ 63 - 8) ∷ []) ≡ some (2 ^ 63 - 9)
unfolding avg_no_overflow div_ℤ
average_spills = refl

average_empty : avg_no_overflow div_ℤ [] ≡ some 0
unfolding avg_no_overflow div_ℤ
average_empty = refl

-- An element at the largest intmax_t, past the bound of the theorem, wraps the accumulator, and the average is lost.
average_wraps : avg_no_overflow div_ℤ ((2 ^ 63 - 1) ∷ 1 ∷ (2 ^ 63 - 1) ∷ 0 ∷ 0 ∷ []) ≡ some 0
unfolding avg_no_overflow div_ℤ
average_wraps = refl

-- A long double that rounds up from three quarters, as one of 64 bits does between 2^62 and 2^63.
abbrev rounding : ℤ → ℕ → ℤ
rounding (pos t) d = pos (if ltb (3 * d) (4 * (t % d)) then suc (t / d) else t / d)
rounding (negsuc t) d = negsuc t

rounding-Rounds : Rounds rounding
rounding-Rounds = record {
  rounded = λ t d some_d small. elim (dec_lt (3 * d) (4 * (t % d))) [
    | yes high ↦ (
      suc (t / d),
      rw (lt→ltb (3 * d) (4 * (t % d)) high) refl,
      omega arith,
      omega arith,
      λ half. absurd (omega arith),
    )
    | no low ↦ (
      t / d,
      rw (le→ltb_false (3 * d) (4 * (t % d)) (omega arith)) refl,
      omega arith,
      omega arith,
      λ half. refl,
    )
  ];
}

avg_no_overflow-sum_example :
    Near (2 ^ 63 + 37) 3 (avg_no_overflow rounding ((2 ^ 63 - 10) ∷ 7 ∷ 40 ∷ []))
avg_no_overflow-sum_example =
    avg_no_overflow-sum rounding rounding-Rounds (2 ^ 63 - 10) (7 ∷ 40 ∷ []) (omega arith)
