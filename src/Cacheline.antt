-- ===== src/Cacheline.antt =====
-- src/benchmarks/src/cacheline.cpp: `init_stride`, which links the lines of an array in order, and the
-- walk of `time_rd_latency` over them. Memory is the one of `Chain`; the address that `malloc` returns
-- is an argument. The frame of the walk, its counter and clock, is `Counter.timed`.
pub mod Laws
pub mod Program
pub mod Main
mod Tests
use microrev.Common.{
  ℕ, zero, suc, ◌+◌, ◌*◌, ◌/◌, true, false, Option, none, some, List, [], ◌∷◌, ltb,
}
use microrev.Chain.{Memory, write, u64, Built, close}

-- `*iter = &arr[i + stride]; iter += stride / sizeof( iter )`; the iterator is a `char**`.
unfoldable pub stride_loop : ℕ → ℕ → ℕ → ℕ → ℕ → ℕ → Memory → Option Built
unfolding write
stride_loop zero arr size stride i iter m = none
stride_loop (suc fuel) arr size stride i iter m = elim (ltb i size) [
  | true ↦
      stride_loop fuel arr size stride (u64 (i + stride)) (iter + stride / 8 * 8)
        (write m iter (arr + u64 (i + stride)))
  | false ↦ some (record { memory = m; iter = iter })
]

-- What it returns is `iter`, not the head. Each round adds `stride`, so `size + 1` rounds are enough.
unfoldable pub init_stride : ℕ → ℕ → ℕ → Memory → Option Built
unfolding stride_loop
init_stride arr size stride m = close arr (stride_loop (suc size) arr size stride 0 arr m)

-- The macros, for `a` a step of the iterator.
abbrev pub five : (ℕ → ℕ) → ℕ → ℕ
five a iter = a (a (a (a (a iter))))

abbrev pub ten : (ℕ → ℕ) → ℕ → ℕ
ten a iter = five a (five a iter)

abbrev pub fifty : (ℕ → ℕ) → ℕ → ℕ
fifty a iter = ten a (ten a (ten a (ten a (ten a iter))))

unfoldable pub hundred : (ℕ → ℕ) → ℕ → ℕ
hundred a iter = fifty a (fifty a iter)

-- `for( int i = 0; i < accesses; ++i ) { HUNDRED( iter = ( (char**)*iter ); ) }`
unfoldable pub chase : ℕ → Memory → ℕ → ℕ
unfolding hundred
chase zero m iter = iter
chase (suc accesses) m iter = chase accesses m (hundred (λ p. m p) iter)
