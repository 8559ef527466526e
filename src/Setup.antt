-- ===== src/Setup.antt =====
-- The globals of the macro BENCHMARK_INIT in src/library/include/benchmark_helpers.h, and `setup`
-- and `pr_co_setup`, which allocate the shared block and link its lines. The addresses that
-- `malloc` returns are arguments (`block`); the flags are a vector of their own.
pub mod Laws
use microrev.Common.{
  ℕ, ◌+◌, ◌/◌, Option, none, some, List, leb, ltb, ◌&&◌, if◌then◌else◌, replicate,
}
use microrev.Common.Int.{ℤ, pos}
use microrev.Chain.{Memory, Built, set_shuffled_linked_list}

pub record Shared : Type 0 where
  pub shared_data : ℕ
  pub shared_iter : ℕ
  pub wrflag : List ℤ
  pub shared_data_size : ℕ
  pub cache_line_size : ℕ
  pub memory : Memory

-- `shared_data[i] = 0` for every byte of the block
unfoldable pub zero_fill : ℕ → ℕ → Memory → Memory
zero_fill arr size m a = if leb arr a && ltb a (arr + size) then 0 else m a

abbrev pub install : Shared → ℕ → Option Built → Option Shared
install s block none = none
install s block (some b) =
    some (record s { shared_data = block; shared_iter = b.iter; memory = b.memory })

module _ (dist : ℕ → ℕ → ℕ) where
  -- The list is built in line by `setup` with the statements of `set_shuffled_linked_list`, whose
  -- iterator is the global `shared_iter` here.
  unfoldable pub setup : ℕ → ℕ → ℕ → Shared → Option Shared
  setup block size stride s =
      install s block (set_shuffled_linked_list dist block size stride s.memory)

  unfoldable pub pr_co_setup : ℕ → ℕ → ℕ → Shared → Option Shared
  unfolding zero_fill
  pr_co_setup block size stride s =
      install (record s { wrflag = replicate (size / stride) (pos 1) }) block
        (set_shuffled_linked_list dist block size stride (zero_fill block size s.memory))
