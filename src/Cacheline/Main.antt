-- ===== src/Cacheline/Main.antt =====
-- `main` of src/benchmarks/src/cacheline.cpp with its counters. `prepare` is what `init_stride` does to
-- the machine for a test, and `walk` what the loop of `time_rd_latency` does; the words that they touch
-- are in `Program`.
pub mod Laws
use microrev.Common.{ℕ, Option, some, List, [], ◌∷◌, ◌>>=◌}
use microrev.Constants.{b8, b16, b32, b64, b128, b256, b512, kb1, kb32}
use microrev.Bench.{Schedule, labelled}
use microrev.Counter.{Papi, Run, set_world, timed}
use microrev.Counter.Output.{Line}
use microrev.Gather.{stats_all, counters_with_priority_schedule}

-- The arguments of `time_rd_latency`, by which a test is known.
pub record LatencyTest : Type 0 where
  pub size : ℕ
  pub stride : ℕ

-- `test8` to `test1024`
abbrev pub of_stride : ℕ → LatencyTest
of_stride stride = record { size = kb32; stride = stride }

-- `vec`
abbrev pub vec : List (Schedule LatencyTest)
vec =
    labelled 1 (of_stride b8) [] "8B"
    ∷ labelled 1 (of_stride b16) [] "16B"
    ∷ labelled 1 (of_stride b32) [] "32B"
    ∷ labelled 1 (of_stride b64) [] "64B"
    ∷ labelled 1 (of_stride b128) [] "128B"
    ∷ labelled 1 (of_stride b256) [] "256B"
    ∷ labelled 1 (of_stride b512) [] "512B"
    ∷ labelled 1 (of_stride kb1) [] "1KB"
    ∷ []

module _ (P : Papi) (prepare walk : LatencyTest → P.World → P.World) where
  -- The array is built before the counter starts.
  abbrev pub time_rd_latency : LatencyTest → Run P → Option (Run P)
  time_rd_latency t s = timed (walk t) (set_world s (prepare t s.world))

  -- What `main` writes to the standard output; `log` is the order in which the workers end.
  unfoldable pub main : List ℕ → P.World → Option (List Line × P.World)
  unfolding counters_with_priority_schedule stats_all
  main log w = do
    g ← counters_with_priority_schedule P time_rd_latency log vec 3 w
    (out, counters) ← stats_all P g.world [] g.counters
    some (out, g.world)
