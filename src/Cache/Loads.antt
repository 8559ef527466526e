-- ===== src/Cache/Loads.antt =====
-- Which bytes `doloops` loads, and what it finds there.
use native.Mathlib.Nat.{mod-eq_of_lt, mul-le-mul_left}
use microrev.Common.{
  ℕ, zero, suc, ◌+◌, ◌*◌, ◌%◌, ◌^◌, ◌≤◌, ◌<◌, ◌≡◌, ◌∙◌, refl, arith, some, List, [], ◌∷◌, ◌++◌,
  lt→ltb, le→ltb_false,
}
use microrev.Chain.{Memory, write}
use microrev.Chain.Link.{write_same, write_other}
use microrev.Cache.{letter, fill_loop, load_loop, repeat_loop, loads}

-- `n` loads in strides, from the index `i` on, each of the letter of its index.
abbrev pub letters : ℕ → ℕ → ℕ → ℕ → List (ℕ × ℕ)
letters arr stride zero i = []
letters arr stride (suc n) i = (arr + i, letter i) ∷ letters arr stride n (i + stride)

-- The same `n` loads, in each of the rounds.
abbrev pub letters_again : ℕ → ℕ → ℕ → ℕ → List (ℕ × ℕ)
letters_again arr stride n zero = []
letters_again arr stride n (suc rounds) =
    letters arr stride n 0 ++ letters_again arr stride n rounds

-- The `n` bytes in strides from the index `i` on hold their letters.
abbrev Lettered : ℕ → ℕ → ℕ → ℕ → Memory → Type 0
Lettered arr stride zero i m = Unit
Lettered arr stride (suc n) i m = (m (arr + i) ≡ letter i) × Lettered arr stride n (i + stride) m

module _ (arr wset_sz stride : ℕ) (forward : 0 < stride) (small : wset_sz + stride < 2 ^ 64) where
  -- From the index `i` on there are `n` indices below the size.
  record Left (n i : ℕ) : Type 0 where
    pub reach : wset_sz ≤ i + n * stride
    pub tight : i + n * stride < wset_sz + stride

  Left-over : (i : ℕ) → Left 0 i → wset_sz ≤ i
  Left-over i left = omega (arith, left.reach)

  Left-inside : (n i : ℕ) → Left (suc n) i → i < wset_sz
  Left-inside n i left =
      let more : suc n * stride ≡ stride + n * stride = grind arith in
      omega (arith, left.tight, more)

  Left-next : (n i : ℕ) → Left (suc n) i → Left n (i + stride)
  Left-next n i left =
      let more : suc n * stride ≡ stride + n * stride = grind arith in
      record { reach = omega (arith, left.reach, more); tight = omega (arith, left.tight, more) }

  next_index : (n i : ℕ) → Left (suc n) i → (i + stride) % 2 ^ 64 ≡ i + stride
  next_index n i left = mod-eq_of_lt (omega (arith, Left-inside n i left))

  -- What the first loop leaves; it stores nothing before the index.
  record Filled (n i : ℕ) (m m' : Memory) : Type 0 where
    pub lettered : Lettered arr stride n i m'
    pub before : (a : ℕ) → a < arr + i → m' a ≡ m a

  fill_loop-Filled :
      (fuel n i : ℕ) (m : Memory)
      → n < fuel
      → Left n i
      → (m' : Memory) × (fill_loop fuel arr wset_sz stride i m ≡ some m') × Filled n i m m'
  unfolding fill_loop
  fill_loop-Filled zero n i m enough left = absurd (omega arith)
  fill_loop-Filled (suc fuel) zero i m enough left = (
    m,
    rw (le→ltb_false i wset_sz (Left-over i left), fill_loop) refl,
    record { lettered = tt; before = λ a lt. refl },
  )
  fill_loop-Filled (suc fuel) (suc n) i m enough left =
      let (m', rest, filled) =
        fill_loop-Filled fuel n (i + stride) (write m (arr + i) (letter i)) (omega arith)
          (Left-next n i left) in
      (
        m',
        rw (lt→ltb i wset_sz (Left-inside n i left), fill_loop, next_index n i left, rest) refl,
        record {
          lettered = (
            filled.before (arr + i) (omega arith) ∙ write_same m (arr + i) (letter i),
            filled.lettered,
          );
          before = λ a lt.
              filled.before a (omega arith) ∙ write_other m (arr + i) (letter i) a (omega arith);
        },
      )

  load_loop-letters :
      (fuel n i : ℕ) (m : Memory)
      → n < fuel
      → Left n i
      → Lettered arr stride n i m
      → load_loop fuel m arr wset_sz stride i ≡ some (letters arr stride n i)
  unfolding load_loop
  load_loop-letters zero n i m enough left lettered = absurd (omega arith)
  load_loop-letters (suc fuel) zero i m enough left lettered =
      rw (le→ltb_false i wset_sz (Left-over i left), load_loop) refl
  load_loop-letters (suc fuel) (suc n) i m enough left (here, lettered) =
      rw
        (
          lt→ltb i wset_sz (Left-inside n i left),
          load_loop,
          next_index n i left,
          load_loop-letters fuel n (i + stride) m (omega arith) (Left-next n i left) lettered,
          here,
        )
        refl

  -- There are not more indices than the size.
  few : (n : ℕ) → Left n 0 → n < suc wset_sz
  few zero left = omega arith
  few (suc n) left =
      let more : suc n * stride ≡ stride + n * stride = grind arith in
      let each : n * 1 ≤ n * stride = mul-le-mul_left n forward in
      omega (arith, left.tight, more, each)

  repeat_loop-letters :
      (n rounds : ℕ) (m : Memory)
      → Left n 0
      → Lettered arr stride n 0 m
      → repeat_loop rounds m arr wset_sz stride ≡ some (letters_again arr stride n rounds)
  unfolding repeat_loop
  repeat_loop-letters n zero m left lettered = refl
  repeat_loop-letters n (suc rounds) m left lettered =
      rw
        (
          load_loop-letters (suc wset_sz) n 0 m (few n left) left lettered,
          repeat_loop-letters n rounds m left lettered,
        )
        refl

  -- For a stride that is not 0, and no overflow of the index, `doloops` fills its array and loads from
  -- it: in each of the rounds one byte for each of the `n` strides that are in the array, in order,
  -- and finds there the letter that it has stored.
  pub loads-letters :
      (n rounds : ℕ) (m : Memory)
      → wset_sz ≤ n * stride
      → n * stride < wset_sz + stride
      → loads arr wset_sz stride rounds m ≡ some (letters_again arr stride n rounds)
  unfolding loads
  loads-letters n rounds m reach tight =
      let left : Left n 0 = record { reach = omega arith; tight = omega arith } in
      let (m', filled, all) = fill_loop-Filled (suc wset_sz) n 0 m (few n left) left in
      rw filled (repeat_loop-letters n rounds m' left all.lettered)
