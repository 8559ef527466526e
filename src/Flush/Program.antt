-- ===== src/Flush/Program.antt =====
-- `main` of benchmarks/src/flush.cpp. `prepare` is what `setup` does to the machine; a line of the output
-- is a size and an average, which is `none` where `avg_no_overflow` is undefined; `quotient` is as in `avg_no_overflow`.
use microrev.Constants.{kb1, kb2, kb4, kb8, kb16, kb32, kb64, kb128, kb256, kb512, mb1, mb2}
use microrev.Common.{ℕ, zero, suc, ◌+◌, Option, some, List, [], ◌∷◌, ◌++◌, length, ◌>>=◌}
use microrev.Average.{avg_no_overflow}
use microrev.Common.Int.{ℤ}
use microrev.Bench.{Body, Sched, Cores}
use microrev.Counter.{Papi}
use microrev.Gather.{body, counters_with_priority_schedule}
use microrev.Flush.{flusher_test, read_from_invalid_test, push_results}
use Prim.Native.String.{String}

abbrev pub counters : List String
counters = "perf::L1-DCACHE-LOAD-MISSES" ∷ "perf::L1-DCACHE-LOADS" ∷ []

abbrev pub shared_sizes : List ℕ
shared_sizes = kb1 ∷ kb2 ∷ kb4 ∷ kb8 ∷ kb16 ∷ kb32 ∷ kb64 ∷ kb128 ∷ kb256 ∷ kb512 ∷ mb1 ∷ mb2 ∷ []

-- The cores of `INIT_ARCH_CFG( 2, 4, 6, 7, 9, … )`
abbrev pub cores : Cores
cores = record {
  core_src = 2;
  core_socket0 = 4;
  core_socket1 = 6;
  core_global0 = 7;
  core_global1 = 9;
}

pub record Average : Type 0 where
  pub size : ℕ
  pub average : Option ℕ

module _ (P : Papi) (walk : Body → P.World → P.World) (prepare : ℕ → P.World → P.World)
    (order : ℕ → ℕ → List ℕ) (quotient : ℤ → ℕ → ℤ) where
  -- A test: its schedule runs without warm-up rounds, and its results are kept. `order i n` is the
  -- order in which the `n` workers of the test number `i` end.
  unfoldable pub run_schedule : ℕ → List Sched → List ℕ → P.World → Option (List ℕ × P.World)
  unfolding counters_with_priority_schedule push_results
  run_schedule i vec results w = do
    g ← counters_with_priority_schedule P (body P walk) (order i (length vec)) vec 0 w
    results' ← push_results g.counters results
    some (results', g.world)

  -- `for( int i = 0; i < 200; ++i )`
  unfoldable pub run_times : ℕ → ℕ → List Sched → List ℕ → P.World → Option (List ℕ × P.World)
  unfolding run_schedule
  run_times i zero vec results w = some (results, w)
  run_times i (suc n) vec results w = do
    (results', w') ← run_schedule i vec results w
    run_times (suc i) n vec results' w'

  -- The loop over the sizes; the results are cleared at the end of a round.
  unfoldable pub sizes_loop :
      ℕ → List Sched → List ℕ → List Average → P.World → Option (List Average × P.World)
  unfolding run_times
  sizes_loop i vec [] out w = some (out, w)
  sizes_loop i vec (size ∷ sizes) out w = do
    (cycles, w') ← run_times i 200 vec [] (prepare size w)
    sizes_loop (i + 200) vec sizes
        (out ++ record { size = size; average = avg_no_overflow quotient cycles } ∷ []) w'

  -- Two sweeps over the sizes, one after the other.
  unfoldable pub two_sweeps :
      List Sched → List Sched → List ℕ → P.World → Option (List Average × P.World)
  unfolding sizes_loop
  two_sweeps first second sizes w = do
    (out, w') ← sizes_loop 0 first sizes [] w
    sizes_loop 2400 second sizes out w'

  unfoldable pub flush_sweeps : P.World → Option (List Average × P.World)
  unfolding two_sweeps flusher_test read_from_invalid_test
  flush_sweeps w =
      two_sweeps (read_from_invalid_test cores counters) (flusher_test cores counters) shared_sizes
        w
