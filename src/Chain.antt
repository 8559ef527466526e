-- ===== src/Chain.antt =====
-- The linked list through the shared block: src/library/include/shuffle.h
-- (`set_shuffled_linked_list`), and `setup` and `pr_co_setup` of the macro BENCHMARK_INIT in
-- src/library/include/benchmark_helpers.h.
-- A pointer is a number, and memory maps an address to the 8-byte word that stands there. The list
-- lives at multiples of 8, where words do not overlap. Memory is flat: a store outside the block
-- that `malloc` returned is carried out, and the theorems say where the stores go.
-- `none` is an access out of the bounds of a vector, or a loop that outran its fuel.
pub mod Lines
pub mod Link
pub mod Follow
pub mod Build
use microrev.Common.{
  ℕ, zero, suc, ◌+◌, ◌*◌, ◌/◌, ◌%◌, ◌^◌, Bool, true, false, Option, none, some, List, [], ◌∷◌, ltb,
  leb, ◌&&◌, ◌==◌, if◌then◌else◌, get_elem?,
}
use microrev.Shuffle.{shuffle_array}

abbrev pub Memory : Type 0
Memory = ℕ → ℕ

unfoldable pub write : Memory → ℕ → ℕ → Memory
write m p v a = if p == a then v else m a

-- `uint64_t` arithmetic
abbrev pub u64 : ℕ → ℕ
u64 n = n % 2 ^ 64

-- `for( uint64_t i = 0; i < size; i += stride ) rndarray.push_back( &arr[i] )`
pub collect : ℕ → ℕ → ℕ → ℕ → ℕ → Option (List ℕ)
collect zero arr size stride i = none
collect (suc fuel) arr size stride i = elim (ltb i size) [
  | true ↦ elim (collect fuel arr size stride (u64 (i + stride))) [
    | none ↦ none
    | some rest ↦ some ((arr + i) ∷ rest)
  ]
  | false ↦ some []
]

pub record Built : Type 0 where
  pub memory : Memory
  pub iter : ℕ

-- The second loop: `*shared_iter = rndarray[i / stride]; shared_iter += stride / sizeof( shared_iter )`.
-- The iterator is a `char**`, so that it moves by 8 bytes for each unit.
pub link_loop : ℕ → ℕ → ℕ → List ℕ → ℕ → ℕ → Memory → Option Built
unfolding write
link_loop zero size stride rndarray i iter m = none
link_loop (suc fuel) size stride rndarray i iter m = elim (ltb i size) [
  | true ↦ elim (get_elem? rndarray (i / stride)) [
    | none ↦ none
    | some p ↦
        link_loop fuel size stride rndarray (u64 (i + stride)) (iter + stride / 8 * 8)
          (write m iter p)
  ]
  | false ↦ some (record { memory = m; iter = iter })
]

-- `*shared_iter = head`
abbrev pub close : ℕ → Option Built → Option Built
close head none = none
close head (some b) = some (record b { memory = write b.memory b.iter head })

abbrev pub link_shuffled : ℕ → ℕ → ℕ → Memory → Option (List ℕ) → Option Built
link_shuffled arr size stride m none = none
link_shuffled arr size stride m (some rndarray) =
    close arr (link_loop (suc size) size stride rndarray 0 arr m)

abbrev pub shuffle_lines : (ℕ → ℕ → ℕ) → Option (List ℕ) → Option (List ℕ)
shuffle_lines dist none = none
shuffle_lines dist (some lines) = shuffle_array dist lines

-- `set_shuffled_linked_list`; the iterator at its end is a local variable there, and is kept by
-- `setup` and `pr_co_setup`. Each round adds `stride` to `i`, so `size + 1` rounds are enough.
unfoldable pub set_shuffled_linked_list : (ℕ → ℕ → ℕ) → ℕ → ℕ → ℕ → Memory → Option Built
unfolding collect link_loop
set_shuffled_linked_list dist arr size stride m =
    link_shuffled arr size stride m (shuffle_lines dist (collect (suc size) arr size stride 0))
