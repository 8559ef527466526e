-- ===== src/Latency.antt =====
-- standalone/rd_latency.c: `allocateRandomArray`, which links the lines of an array into a ring, and
-- the walk of `accessArray` over it. Memory is the one of `Chain`; the address that `malloc` returns
-- is an argument. `main`, with the clock and the output, is in Program.
pub mod Ring
pub mod Access
pub mod Program
mod Tests
use microrev.Common.{ℕ, zero, suc, ◌+◌, ◌-◌, true, false, Option, none, some, ltb}
use microrev.Chain.{Memory, write}

pub record Linking : Type 0 where
  pub memory : Memory
  pub index : ℕ

-- `for( i = stride; i < size; i += stride ) *(char**)&randomArray[i - stride] = &randomArray[i];`
pub link_lines : ℕ → ℕ → ℕ → ℕ → Linking → Option Linking
unfolding write
link_lines zero array size stride s = none
link_lines (suc fuel) array size stride s = elim (ltb s.index size) [
  | true ↦ link_lines fuel array size stride (record {
    memory = write s.memory (array + (s.index - stride)) (array + s.index);
    index = s.index + stride;
  })
  | false ↦ some s
]

-- The store after the loop.
abbrev pub loop_back : ℕ → ℕ → Option Linking → Option Memory
loop_back array stride none = none
loop_back array stride (some s) = some (write s.memory (array + (s.index - stride)) array)

-- `size + 1` rounds are enough, since each adds the stride to the index.
unfoldable pub allocate_random_array : ℕ → ℕ → Memory → Option Memory
unfolding link_lines write
allocate_random_array array size m =
    loop_back array 64 (link_lines (suc size) array size 64 (record { memory = m; index = 64 }))

-- The macros ONE, FIVE, TWOFIVE and HUNDO, as functions of the iterator.
pub one : Memory → ℕ → ℕ
one m iterate = m iterate

pub five : Memory → ℕ → ℕ
unfolding one
five m iterate = one m (one m (one m iterate))

pub twofive : Memory → ℕ → ℕ
unfolding five
twofive m iterate = five m (five m (five m (five m (five m iterate))))

pub hundo : Memory → ℕ → ℕ
unfolding twofive
hundo m iterate = twofive m (twofive m (twofive m (twofive m iterate)))

-- `for( counter = 0; counter < NUM_ACCESSES; counter++ ) { HUNDO }`
unfoldable pub access_array : ℕ → Memory → ℕ → ℕ
unfolding hundo
access_array zero m iterate = iterate
access_array (suc rounds) m iterate = access_array rounds m (hundo m iterate)
