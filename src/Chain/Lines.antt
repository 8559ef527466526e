-- ===== src/Chain/Lines.antt =====
-- The lines of a block of `n` lines, and that the first loop collects their addresses.
use microrev.Common.{
  ℕ, zero, suc, ◌+◌, ◌*◌, ◌^◌, ◌<◌, ◌≡◌, refl, ap, ◌∙◌, arith, List, [], ◌∷◌, some, lt→ltb,
  le→ltb_false, length, get_elem?,
}
use native.Mathlib.Nat.{mod-eq_of_lt}
use microrev.Chain.{collect}

-- `arr + k * stride`, and so on for `n` lines
abbrev pub lines : ℕ → ℕ → ℕ → ℕ → List ℕ
lines arr stride k zero = []
lines arr stride k (suc n) = (arr + k * stride) ∷ lines arr stride (suc k) n

pub length-lines : (arr stride k n : ℕ) → length (lines arr stride k n) ≡ n
length-lines arr stride k zero = refl
length-lines arr stride k (suc n) = ap suc (length-lines arr stride (suc k) n)

pub get_elem?-lines :
    (arr stride k n j : ℕ)
    → j < n
    → get_elem? (lines arr stride k n) j ≡ some (arr + (k + j) * stride)
get_elem?-lines arr stride k zero j h = elim h [ ]
get_elem?-lines arr stride k (suc n) zero h = ap some (omega arith)
get_elem?-lines arr stride k (suc n) (suc j) h =
    get_elem?-lines arr stride (suc k) n j (omega arith) ∙ ap some (omega arith)

pub collect-lines :
    (fuel arr size stride k n i : ℕ)
    → 0 < stride
    → size + stride < 2 ^ 64
    → i ≡ k * stride
    → size ≡ (k + n) * stride
    → n < fuel
    → collect fuel arr size stride i ≡ some (lines arr stride k n)
unfolding collect
collect-lines zero arr size stride k n i some_stride fits e total enough = elim enough [ ]
collect-lines (suc fuel) arr size stride k zero i some_stride fits e total enough =
    rw (le→ltb_false i size (omega arith), collect)
collect-lines (suc fuel) arr size stride k (suc n) i some_stride fits e total enough =
    let small : i + stride < 2 ^ 64 = grind arith in
    rw
      (
        lt→ltb i size (grind arith),
        collect,
        mod-eq_of_lt small,
        collect-lines fuel arr size stride (suc k) n (i + stride) some_stride fits (omega arith)
            (omega arith) (omega arith),
      )
      (ap (λ (t : ℕ). some ((arr + t) ∷ lines arr stride (suc k) n)) e)
