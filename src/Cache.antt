-- ===== src/Cache.antt =====
-- src/benchmarks/src/cache.cpp: `doloops`, which fills an array on its stack and then loads from it in
-- strides, and `main`, which shuffles five pointers and runs `doloops` on three cores. Memory is the
-- one of `Chain`, with a byte at each address.
pub mod Loads
pub mod Reports
mod Tests
use microrev.Common.{
  ℕ, zero, suc, ◌+◌, ◌-◌, ◌%◌, ◌^◌, true, false, Option, none, some, List, [], ◌∷◌, ◌++◌, ◌>>=◌,
  ltb,
}
use microrev.Constants.{kb512, mb1, mb2}
use microrev.Chain.{Memory, write}
use microrev.Shuffle.{shuffle_array}
use microrev.Bench.{Schedule, sched}
use microrev.Counter.{Double, of_u64, Papi, Run, set_world, bracketed}
use microrev.Counter.Output.{Line}
use microrev.Gather.{Gathered, counters_with_schedule}
use Prim.Native.String.{String}

-- `( i % 9 ) + 'A' - 1`
abbrev pub letter : ℕ → ℕ
letter i = i % 9 + 65 - 1

-- `for( uint64_t i = 0; i < wset_sz; i += stride ) arr[i] = …;`
pub fill_loop : ℕ → ℕ → ℕ → ℕ → ℕ → Memory → Option Memory
unfolding write
fill_loop zero arr wset_sz stride i m = none
fill_loop (suc fuel) arr wset_sz stride i m = elim (ltb i wset_sz) [
  | true ↦ fill_loop fuel arr wset_sz stride ((i + stride) % 2 ^ 64) (write m (arr + i) (letter i))
  | false ↦ some m
]

-- `for( uint64_t j = 0; j < wset_sz; j += stride ) c = arr[j];`, as the addresses and what they hold.
pub load_loop : ℕ → Memory → ℕ → ℕ → ℕ → ℕ → Option (List (ℕ × ℕ))
load_loop zero m arr wset_sz stride j = none
load_loop (suc fuel) m arr wset_sz stride j = elim (ltb j wset_sz) [
  | true ↦ do
    rest ← load_loop fuel m arr wset_sz stride ((j + stride) % 2 ^ 64)
    some ((arr + j, m (arr + j)) ∷ rest)
  | false ↦ some []
]

-- The loop around it.
pub repeat_loop : ℕ → Memory → ℕ → ℕ → ℕ → Option (List (ℕ × ℕ))
unfolding load_loop
repeat_loop zero m arr wset_sz stride = some []
repeat_loop (suc rounds) m arr wset_sz stride = do
  once ← load_loop (suc wset_sz) m arr wset_sz stride 0
  rest ← repeat_loop rounds m arr wset_sz stride
  some (once ++ rest)

-- The loads that `doloops` measures.
unfoldable pub loads : ℕ → ℕ → ℕ → ℕ → Memory → Option (List (ℕ × ℕ))
unfolding fill_loop repeat_loop
loads arr wset_sz stride rounds m = do
  filled ← fill_loop (suc wset_sz) arr wset_sz stride 0 m
  repeat_loop rounds filled arr wset_sz stride

-- The arguments of `doloops`, by which a test is known.
pub record WorkingSet : Type 0 where
  pub wset_sz : ℕ
  pub stride : ℕ
  pub rounds : ℕ

-- `test_wset2` to `test_wset2048`, with the default arguments.
abbrev pub test_wset : ℕ → WorkingSet
test_wset wset_sz = record { wset_sz = wset_sz; stride = 32; rounds = 100 }

abbrev pub dcache_events : List String
dcache_events = "perf::L1-DCACHE-LOAD-MISSES" ∷ "perf::L1-DCACHE-LOADS" ∷ []

-- `vec`, of `core_1`, `core_2` and `core_3`
abbrev pub three_cores : List (Schedule WorkingSet)
three_cores =
    sched 1 (test_wset mb2) dcache_events
    ∷ sched 2 (test_wset mb1) dcache_events
    ∷ sched 3 (test_wset kb512) dcache_events
    ∷ []

-- `a`
abbrev pub pointers : List ℕ
pointers = 0 ∷ 1 ∷ 2 ∷ 3 ∷ 4 ∷ []

-- `prepare` is what filling the array does to the machine, and `walk` what its loads do.
module _ (P : Papi) (prepare walk : WorkingSet → P.World → P.World) where
  abbrev between : WorkingSet → P.World → ℕ × P.World
  between t w =
      let (start, w1) = P.rdtsc w in
      let (end, w2) = P.rdtsc (walk t w1) in ((end + 2 ^ 64 - start) % 2 ^ 64, w2)

  -- `pc.cycles_measured = end - start;`
  abbrev set_cycles : ℕ → Run P → Run P
  set_cycles cycles s = record s { counter = record s.counter { cycles_measured = of_u64 cycles } }

  unfoldable pub doloops : WorkingSet → Run P → Option (Run P)
  unfolding bracketed
  doloops t s = do
    (cycles, stopped) ← bracketed (between t) (set_world s (prepare t s.world))
    some (set_cycles cycles stopped)

  -- `main`: the shuffled pointers, and what the schedule leaves.
  unfoldable pub cache :
      (ℕ → ℕ → ℕ) → List ℕ → List Line → P.World → Option (List ℕ × List Line × Gathered P)
  unfolding shuffle_array doloops counters_with_schedule
  cache dist log dump w = do
    a ← shuffle_array dist pointers
    (dump', g) ← counters_with_schedule P doloops log three_cores 5 dump w
    some (a, dump', g)
