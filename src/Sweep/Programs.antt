-- ===== src/Sweep/Programs.antt =====
-- The calls of `main` in src/benchmarks/src/protocols.cpp and src/benchmarks/src/producer_consumer.cpp.
use microrev.Constants.{
  b64, b128, b256, b512, kb1, kb2, kb4, kb8, kb16, kb32, kb64, kb128, kb256, kb512, mb1, mb2,
}
use microrev.Common.{◌*◌, ℕ, List, [], ◌∷◌}
use microrev.Bench.{
  MesiType, producer_consumer, flush, store_on_modified, store_on_exclusive,
  store_on_shared_or_forward, store_on_invalid, load_from_modified, load_from_exclusive,
  load_from_shared_or_forward, load_from_invalid, CorePlacement,
}
use microrev.Sweep.{Call, set_up, for_each, repeat, placements, call_of}
use Prim.Native.String.{String}

-- protocols.cpp
abbrev pub protocols_sizes : List ℕ
protocols_sizes =
    b64 ∷ b128 ∷ b256 ∷ b512 ∷ kb1 ∷ kb2 ∷ kb4 ∷ kb8 ∷ kb16 ∷ kb32 ∷ kb64 ∷ kb128 ∷ kb256 ∷ kb512
    ∷ mb1 ∷ mb2 ∷ []

abbrev pub protocols_events : List String
protocols_events = "PAPI_TOT_INS" ∷ "perf::L1-DCACHE-LOAD-MISSES" ∷ "perf::L1-DCACHE-LOADS" ∷ []

-- The eight tests of the innermost loop.
abbrev pub protocols_kinds : List MesiType
protocols_kinds =
    load_from_modified ∷ load_from_exclusive ∷ load_from_shared_or_forward ∷ load_from_invalid
    ∷ store_on_modified ∷ store_on_exclusive ∷ store_on_shared_or_forward ∷ store_on_invalid ∷ []

-- `for( int i = 0; i < 100; i++ )`
abbrev pub hundred : List MesiType → ℕ → List String → CorePlacement → List Call
hundred kinds s c j = repeat 100 (for_each kinds (call_of s j c))

-- `for( int j = 0; j < 3; j++ )`
abbrev pub protocols_with : ℕ → List String → List Call
protocols_with s c = for_each placements (hundred protocols_kinds s c)

-- The calls for one size; `cnt_vec_list` has one element.
abbrev pub protocols_at : ℕ → List Call
protocols_at s = set_up s ∷ for_each (protocols_events ∷ []) (protocols_with s)

unfoldable pub protocols : List Call
unfolding for_each repeat
protocols = for_each protocols_sizes protocols_at

-- producer_consumer.cpp
abbrev pub pr_co_sizes : List ℕ
pr_co_sizes = kb4 ∷ kb8 ∷ kb16 ∷ kb32 ∷ kb64 ∷ kb128 ∷ kb256 ∷ kb512 ∷ mb1 ∷ mb2 ∷ []

abbrev pub pr_co_events : List String
pr_co_events = "perf::L1-DCACHE-LOAD-MISSES" ∷ []

abbrev pub pr_co_kinds : List MesiType
pr_co_kinds = flush ∷ producer_consumer ∷ []

abbrev pub pr_co_at : ℕ → List Call
pr_co_at s = set_up s ∷ for_each placements (hundred pr_co_kinds s pr_co_events)

unfoldable pub pr_co : List Call
unfolding for_each repeat
pr_co = for_each pr_co_sizes pr_co_at

-- How many tests of a kind each program makes.
abbrev pub protocols_tests : MesiType → ℕ
protocols_tests producer_consumer = 0
protocols_tests flush = 0
protocols_tests t = 16 * 3 * 100

abbrev pub pr_co_tests : MesiType → ℕ
pr_co_tests producer_consumer = 10 * 3 * 100
pr_co_tests flush = 10 * 3 * 100
pr_co_tests t = 0
