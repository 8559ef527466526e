-- ===== src/Measurement.antt =====
-- src/benchmarks/src/a_measurement.cpp: `main` after `parse_cfg`. One object of `CounterBenchmark` runs
-- a schedule of three readers for each working set, from 4 MB down by halves. `prepare` is what `setup`
-- does to the machine, and `to_string` the library's.
pub mod Laws
mod Tests
use microrev.Constants.{mb4}
use microrev.Common.{
  ℕ, zero, suc, ◌*◌, ◌/◌, true, false, Option, none, some, List, [], ◌∷◌, ltb, ◌==◌, ◌>>=◌,
  if◌then◌else◌,
}
use microrev.Bench.{Body, reader, Sched}
use microrev.Counter.{Papi}
use microrev.Counter.Output.{Line}
use microrev.Gather.{body, Gathered, stats_all, counters_with_priority_schedule}
use Prim.Native.String.{String}

-- The events of the three entries.
abbrev pub accesses : List String
accesses = "perf::PERF_COUNT_HW_CACHE_L1D:ACCESS" ∷ "perf::PERF_COUNT_HW_CACHE_L1D:PREFETCH" ∷ []

abbrev pub misses : List String
misses = "PAPI_L1_DCM" ∷ "L1D:REPLACEMENT" ∷ "PAPI_TOT_CYC" ∷ []

abbrev pub second_level : List String
second_level = "PAPI_L2_DCM" ∷ "PAPI_L2_DCH" ∷ []

-- `vec`
abbrev pub entries : String → List Sched
entries label =
    record { core_id = 1; benchmark = reader; events = accesses; label = label }
    ∷ record { core_id = 1; benchmark = reader; events = misses; label = label }
    ∷ record { core_id = 1; benchmark = reader; events = second_level; label = label }
    ∷ []

module _ (P : Papi) (walk : Body → P.World → P.World) (prepare : ℕ → P.World → P.World)
    (to_string : ℕ → String) where
  -- The body of the loop; `log` is the order in which the workers end.
  unfoldable pub measure : List ℕ → ℕ → ℕ → List Line → P.World → Option (List Line × P.World)
  unfolding counters_with_priority_schedule stats_all
  measure log cache_size n dump w = do
    g ←
        counters_with_priority_schedule P (body P walk) log (entries (to_string n)) 5
          (prepare (cache_size * n) w)
    (dump', counters) ← stats_all P g.world dump g.counters
    some (dump', g.world)

  -- `for( uint64_t n = _4MB / cache_size; n >= 1; n /= 2 )`
  unfoldable pub sweep :
      (ℕ → List ℕ) → ℕ → ℕ → ℕ → List Line → P.World → Option (List Line × P.World)
  unfolding measure
  sweep order zero cache_size n dump w = none
  sweep order (suc fuel) cache_size n dump w = elim (ltb 0 n) [
    | true ↦ (do
      (dump', w') ← measure (order n) cache_size n dump w
      sweep order fuel cache_size (n / 2) dump' w')
    | false ↦ some (dump, w)
  ]

  -- A division by zero is `none`. A round halves `n`, so that `n + 1` rounds are enough.
  unfoldable pub main_sweep : (ℕ → List ℕ) → ℕ → List Line → P.World → Option (List Line × P.World)
  unfolding sweep
  main_sweep order cache_size dump w =
      if cache_size == 0
      then none
      else sweep order (suc (mb4 / cache_size)) cache_size (mb4 / cache_size) dump w
