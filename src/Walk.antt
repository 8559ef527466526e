-- ===== src/Walk.antt =====
-- The loops of `reader_`, `writer_`, `producer_`, `consumer_` and `flusher_` of the macro BENCHMARK_INIT in
-- src/library/include/benchmark_helpers.h, over the memory of `Chain`. Each returns the addresses
-- that it touches, in order, beside what it computes.
pub mod Reader
pub mod Writer
pub mod Producer
mod Tests
use microrev.Common.{
  ℕ, zero, suc, ◌+◌, ◌/◌, Option, none, some, List, [], ◌∷◌, ◌>>=◌, get_elem?, set,
}
use microrev.Common.Int.{ℤ, pos}
use microrev.Chain.{Memory, write}
use microrev.Setup.{Shared}

pub record Visit : Type 0 where
  pub memory : Memory
  pub iter : ℕ
  pub touched : List ℕ

-- One more address in front.
abbrev pub touch : ℕ → Visit → Visit
touch a v = record v { touched = a ∷ v.touched }

-- `iter = *iter`, once for each line
unfoldable pub reader_loop : ℕ → Memory → ℕ → Visit
reader_loop zero m iter = record { memory = m; iter = iter; touched = [] }
reader_loop (suc lines) m iter = touch iter (reader_loop lines m (m iter))

-- `iter = *iter; *( iter + 1 ) = 1`: the second word of a line
unfoldable pub writer_loop : ℕ → Memory → ℕ → Visit
unfolding write
writer_loop zero m iter = record { memory = m; iter = iter; touched = [] }
writer_loop (suc lines) m iter =
    let next = m iter in touch (next + 8) (writer_loop lines (write m (next + 8) 1) next)

-- `*( iter + 1 ) = 1; iter = *iter`
pub producer_loop : ℕ → Memory → ℕ → Visit
unfolding write
producer_loop zero m iter = record { memory = m; iter = iter; touched = [] }
producer_loop (suc lines) m iter =
    let m' = write m (iter + 8) 1 in touch (iter + 8) (producer_loop lines m' (m' iter))

-- The loop of `consumer_`, where no other thread runs: the flag of a line is 1 after the first
-- test-and-set, so that a second one passes, whatever its old value. `none` is an index out of bounds.
pub consumer_loop : ℕ → ℕ → Memory → ℕ → List ℤ → Option (Visit × List ℤ)
consumer_loop zero i m iter flags = some (record { memory = m; iter = iter; touched = [] }, flags)
consumer_loop (suc lines) i m iter flags = do
  old ← get_elem? flags i
  (v, flags') ← consumer_loop lines (suc i) m (m iter) (set flags i (pos 1))
  some (touch iter v, flags')

-- The four bodies: `line_cnt` rounds from `shared_iter`. What they measure is not modelled here.
abbrev pub line_cnt : Shared → ℕ → ℕ
line_cnt s stride = s.shared_data_size / stride

pub reader_ : Shared → ℕ → Visit
unfolding reader_loop
reader_ s stride = reader_loop (line_cnt s stride) s.memory s.shared_iter

pub writer_ : Shared → ℕ → Visit
unfolding writer_loop
writer_ s stride = writer_loop (line_cnt s stride) s.memory s.shared_iter

pub producer_ : Shared → ℕ → Visit
unfolding producer_loop
producer_ s stride = producer_loop (line_cnt s stride) s.memory s.shared_iter

pub consumer_ : Shared → ℕ → Option (Visit × List ℤ)
unfolding consumer_loop
consumer_ s stride = consumer_loop (line_cnt s stride) 0 s.memory s.shared_iter s.wrflag

-- `_mm_clflush` of every byte of the block
pub flusher_from : ℕ → ℕ → List ℕ
flusher_from a zero = []
flusher_from a (suc bytes) = a ∷ flusher_from (suc a) bytes

pub flusher_ : Shared → List ℕ
unfolding flusher_from
flusher_ s = flusher_from s.shared_data s.shared_data_size
