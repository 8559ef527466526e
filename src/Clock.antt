-- ===== src/Clock.antt =====
-- `rdtsc` of src/library/lib/time_utils.cpp, and src/profiling/src/thread_v_pthread.cpp, which takes the
-- time of a thread with it. The two instructions of the compiler are a parameter.
pub mod Laws
mod Tests
use microrev.Common.{ℕ, ◌+◌, ◌-◌, ◌%◌, ◌^◌}

-- `_mm_lfence` and `__rdtsc`, over a state of the machine.
pub record Cpu : Type 1 where
  pub World : Type 0
  pub lfence : World → World
  pub tsc : World → ℕ × World

module _ (C : Cpu) where
  unfoldable pub rdtsc : C.World → ℕ × C.World
  rdtsc w = let (ret, w') = C.tsc (C.lfence w) in (ret, C.lfence w')

  -- The two readings around a piece of code, and the state behind them.
  unfoldable pub readings : (C.World → C.World) → C.World → (ℕ × ℕ) × C.World
  unfolding rdtsc
  readings run w = let (start, w1) = rdtsc w in let (end, w2) = rdtsc (run w1) in ((start, end), w2)

  -- `spawn_run_join`: `run` is the thread that sleeps, from its start to its end.
  unfoldable pub spawn_run_join : (C.World → C.World) → C.World → ℕ × C.World
  unfolding readings
  spawn_run_join run w =
      let (times, w') = readings run w in ((times.1 + 2 ^ 64 - times.0) % 2 ^ 64, w')
