-- ===== src/InitState.antt =====
-- src/library/include/init_state.h, an older form of the bodies and of `init_state` of the macro
-- BENCHMARK_INIT, which no file includes. It includes a file constant.h that the repository lacks: the
-- numbers of the states are those of benchmark_helpers.h here, and CACHE_SIZE and CACHELINE_SIZE are
-- arguments, as is the name of its parameter `cc_state`, which it leaves out.
pub mod Laws
use microrev.Common.{
  ℕ, zero, suc, ◌+◌, ◌/◌, ◌%◌, ◌^◌, true, false, Option, none, some, List, [], ◌∷◌, ltb, ◌==◌,
  ◌>>=◌, if◌then◌else◌,
}
use microrev.Constants.{kb32}
use microrev.Bench.{
  Sched, sched, reader, writer, flusher, m_state, e_state, s_state, i_state, f_state,
}
use microrev.Chain.{Memory, write}
use microrev.Walk.{Visit, touch, reader_loop}

abbrev pub found : ℕ → Option Visit → Option Visit
found a v = do rest ← v; some (touch a rest)

-- The loops of `flusher_` and `writer_`; `touched` are the addresses that are flushed, or stored to.
pub flusher_loop : ℕ → ℕ → ℕ → ℕ → Memory → ℕ → Option Visit
flusher_loop zero size stride i m iter = none
flusher_loop (suc fuel) size stride i m iter = elim (ltb i size) [
  | true ↦ found iter (flusher_loop fuel size stride ((i + stride) % 2 ^ 64) m (m iter))
  | false ↦ some (record { memory = m; iter = iter; touched = [] })
]

pub writer_loop : ℕ → ℕ → ℕ → ℕ → Memory → ℕ → Option Visit
unfolding write
writer_loop zero size stride i m iter = none
writer_loop (suc fuel) size stride i m iter = elim (ltb i size) [
  | true ↦
      (let next = m iter in
        found (next + 8)
          (writer_loop fuel size stride ((i + stride) % 2 ^ 64) (write m (next + 8) 1) next))
  | false ↦ some (record { memory = m; iter = iter; touched = [] })
]

-- From `shared_iter`; a round more than the size is enough, since a stride is at least 1.
unfoldable pub flusher_ : ℕ → ℕ → Memory → ℕ → Option Visit
unfolding flusher_loop
flusher_ size stride m shared_iter = flusher_loop (suc size) size stride 0 m shared_iter

unfoldable pub writer_ : ℕ → ℕ → Memory → ℕ → Option Visit
unfolding writer_loop
writer_ size stride m shared_iter = writer_loop (suc size) size stride 0 m shared_iter

-- This one moves `shared_iter` itself.
unfoldable pub reader_ : ℕ → ℕ → Memory → ℕ → Visit
reader_ cache_size cacheline_size m shared_iter =
    reader_loop (cache_size / cacheline_size) m shared_iter

-- `flusher` and `writer`, the functions of the schedule.
abbrev pub flush_block : Memory → ℕ → Option Visit
flush_block m shared_iter = flusher_ kb32 64 m shared_iter

abbrev pub write_block : Memory → ℕ → Option Visit
write_block m shared_iter = writer_ kb32 64 m shared_iter

unfoldable pub init_state : ℕ → List Sched
init_state cc_state =
    if cc_state == m_state
    then sched 1 writer [] ∷ []
    else (if cc_state == e_state
        then sched 1 writer [] ∷ sched 1 flusher [] ∷ sched 1 reader [] ∷ []
        else (if cc_state == s_state
            then sched 1 writer [] ∷ sched 2 reader [] ∷ []
            else (if cc_state == i_state
                then sched 1 flusher [] ∷ []
                else (if cc_state == f_state
                    then sched 2 writer [] ∷ sched 1 reader [] ∷ []
                    else []))))
