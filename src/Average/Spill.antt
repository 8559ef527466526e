-- ===== src/Average/Spill.antt =====
-- One round of the loop keeps what its two variables stand for: the sum of the elements read.
use native.Mathlib.Nat.{div-add-mod, mod-lt}
use microrev.Common.{
  ℕ, suc, ◌+◌, ◌*◌, ◌%◌, ◌^◌, ◌≤◌, ◌<◌, ◌≡◌, ◌≢◌, refl, ap, arith, true, false, ◌⊎◌, inl, inr,
  Bool-cases,
}
use microrev.Common.Int.{
  ℤ, pos, negsuc, pos_part, neg_part, ◌+ℤ◌, ◌-ℤ◌, div_ℤ, mod_ℤ, +ℤ_parts, -ℤ_parts,
}
use microrev.Average.{
  Mean, underflows, overflows, to_u64, from_u64, spill_up, spill_down, spill, step,
}

-- `res * size + accumulator` is the sum so far, and the accumulator is an intmax_t not far below 0.
pub record IsExact (size total : ℕ) (s : Mean) : Type 0 where
  pub weight :
      pos_part s.res * size + pos_part s.accumulator
      ≡ total + neg_part s.res * size + neg_part s.accumulator
  pub low : neg_part s.accumulator ≤ size
  pub high : pos_part s.accumulator < 2 ^ 63

-- `a / d * d + a % d` is `a`, and the remainder is small and has the sign of `a`.
pub div_mod_parts :
    (a : ℤ) (d : ℕ)
    → pos_part (div_ℤ a d) * d + pos_part (mod_ℤ a d) + neg_part a
      ≡ neg_part (div_ℤ a d) * d + neg_part (mod_ℤ a d) + pos_part a
unfolding div_ℤ mod_ℤ
div_mod_parts (pos n) d = ground (arith, div-add-mod n d)
div_mod_parts (negsuc n) d = ground (arith, div-add-mod (suc n) d)

mod_bounds : (a : ℤ) (d : ℕ) → 0 < d → (pos_part (mod_ℤ a d) < d) × (neg_part (mod_ℤ a d) < d)
unfolding mod_ℤ
mod_bounds (pos n) d h = ground (arith, mod-lt n {m = d} h)
mod_bounds (negsuc n) d h = ground (arith, mod-lt (suc n) {m = d} h)

mod_le : (a : ℤ) (d : ℕ) → (pos_part (mod_ℤ a d) ≤ pos_part a) × (neg_part (mod_ℤ a d) ≤ neg_part a)
unfolding mod_ℤ
mod_le (pos n) d = ground arith
mod_le (negsuc n) d = ground arith

pub +ℤ_scaled :
    (d : ℕ) (a b : ℤ)
    → pos_part (a +ℤ b) * d + neg_part a * d + neg_part b * d
      ≡ neg_part (a +ℤ b) * d + pos_part a * d + pos_part b * d
+ℤ_scaled d a b = omega (arith, ap (λ (t : ℕ). t * d) (+ℤ_parts a b))

-ℤ_scaled :
    (d : ℕ) (a b : ℤ)
    → pos_part (a -ℤ b) * d + neg_part a * d + pos_part b * d
      ≡ neg_part (a -ℤ b) * d + pos_part a * d + neg_part b * d
-ℤ_scaled d a b = omega (arith, ap (λ (t : ℕ). t * d) (-ℤ_parts a b))

one_sign : (a : ℤ) → (pos_part a ≡ 0) ⊎ (neg_part a ≡ 0)
one_sign (pos n) = inr refl
one_sign (negsuc n) = inl refl

-- The unsigned addition of an element, read as an intmax_t, is the sum if that is in range.
add_u64 :
    (a : ℤ) (x : ℕ)
    → neg_part a ≤ 2 ^ 63
    → pos_part a + x < 2 ^ 63 + neg_part a
    → let r = from_u64 ((to_u64 a + x) % 2 ^ 64) in
      (pos_part r + neg_part a ≡ neg_part r + pos_part a + x)
      × (pos_part r < 2 ^ 63)
      × (neg_part r ≤ neg_part a)
add_u64 (pos n) x low room = ground arith
add_u64 (negsuc n) x low room = ground arith

-- The accumulator is exact and the next element fits.
record HasRoom (size total first : ℕ) (s : Mean) : Type 0 where
  exact : IsExact size total s
  room : pos_part s.accumulator + first < 2 ^ 63 + neg_part s.accumulator

-- What the two tests of the loop say.
underflows-neg :
    (a r : ℤ) (x : ℕ) → underflows (record { accumulator = a; res = r }) x ≡ true → neg_part a ≢ 0
underflows-neg (pos n) r x u = ground arith
underflows-neg (negsuc n) r x u = omega arith

overflows-pos :
    (a r : ℤ) (x : ℕ) → overflows (record { accumulator = a; res = r }) x ≡ true → pos_part a ≢ 0
overflows-pos (pos n) r x o = ground arith
overflows-pos (negsuc n) r x o = ground arith

fits_of_tests :
    (a r : ℤ) (x : ℕ)
    → x < 2 ^ 63
    → pos_part a < 2 ^ 63
    → overflows (record { accumulator = a; res = r }) x ≡ false
    → pos_part a + x < 2 ^ 63 + neg_part a
unfolding ◌-ℤ◌
fits_of_tests (pos n) r x small high h = ground arith
fits_of_tests (negsuc n) r x small high h = omega arith

module _ (size total first : ℕ) (s : Mean) (some_size : 0 < size) (fits : first + size < 2 ^ 63)
    (v : IsExact size total s) where
  abbrev quotient : ℤ
  quotient = div_ℤ s.accumulator size

  abbrev remainder : ℤ
  remainder = mod_ℤ s.accumulator size

  spill_up-HasRoom : neg_part s.accumulator ≢ 0 → HasRoom size total first (spill_up size s)
  unfolding spill_up
  spill_up-HasRoom below = record {
    exact = record {
      weight = omega (
        arith,
        v.weight,
        div_mod_parts s.accumulator size,
        +ℤ_parts remainder (pos size),
        +ℤ_scaled size s.res (quotient -ℤ pos 1),
        -ℤ_scaled size quotient (pos 1),
      );
      low = omega (arith, shape, one_sign (remainder +ℤ pos size));
      high = omega (arith, shape, one_sign (remainder +ℤ pos size));
    };
    room = omega (arith, shape);
  }
    where
      shape :
          (pos_part (remainder +ℤ pos size) + neg_part remainder
            ≡ neg_part (remainder +ℤ pos size) + size)
          × (neg_part remainder < size)
      shape = omega (
        arith,
        one_sign s.accumulator,
        mod_le s.accumulator size,
        mod_bounds s.accumulator size some_size,
        +ℤ_parts remainder (pos size),
      )

  spill_down-HasRoom : pos_part s.accumulator ≢ 0 → HasRoom size total first (spill_down size s)
  unfolding spill_down
  spill_down-HasRoom above = record {
    exact = record {
      weight = omega (
        arith,
        v.weight,
        div_mod_parts s.accumulator size,
        -ℤ_parts remainder (pos size),
        +ℤ_scaled size s.res (quotient +ℤ pos 1),
        +ℤ_scaled size quotient (pos 1),
      );
      low = omega (arith, shape, one_sign (remainder -ℤ pos size));
      high = omega (arith, shape, one_sign (remainder -ℤ pos size));
    };
    room = omega (arith, shape);
  }
    where
      shape :
          (pos_part (remainder -ℤ pos size) + size
            ≡ neg_part (remainder -ℤ pos size) + pos_part remainder)
          × (pos_part remainder < size)
      shape = omega (
        arith,
        one_sign s.accumulator,
        mod_le s.accumulator size,
        mod_bounds s.accumulator size some_size,
        -ℤ_parts remainder (pos size),
      )

  spill-HasRoom : HasRoom size total first (spill size s first)
  unfolding spill
  spill-HasRoom = elim (Bool-cases (underflows s first)) [
    | inl u ↦ rw u (spill_up-HasRoom (underflows-neg s.accumulator s.res first u))
    | inr stays ↦ elim (Bool-cases (overflows s first)) [
      | inl o ↦ rw (stays, o) (spill_down-HasRoom (overflows-pos s.accumulator s.res first o))
      | inr holds ↦
          rw (stays, holds)
            (record {
              exact = v;
              room = fits_of_tests s.accumulator s.res first (omega arith) v.high holds;
            })
    ]
  ]

  pub step-IsExact : IsExact size (total + first) (step size s first)
  unfolding step
  step-IsExact =
      let s' = spill size s first in
      let ready = spill-HasRoom in
      let added = add_u64 s'.accumulator first (omega (arith, ready.exact.low)) ready.room in
      record {
        weight = omega (arith, ready.exact.weight, added);
        low = omega (arith, ready.exact.low, added);
        high = omega (arith, added);
      }
