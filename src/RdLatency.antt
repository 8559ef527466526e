-- ===== src/RdLatency.antt =====
-- src/benchmarks/src/rd_latency.cpp: `init_stride`, which links the lines of the global array in order,
-- builds a shuffled list in a block of its own and walks it once, and `main`. The body that was to be
-- measured, a walk over the array, is commented out there. Memory is the one of `Chain`; what `malloc`
-- returns, the global `arr` and `local_arr`, are arguments.
pub mod Laws
pub mod Counters
mod Tests
use microrev.Common.{
  ℕ, zero, suc, ◌+◌, ◌/◌, Option, none, some, ltb, if◌then◌else◌, ◌^◌, List, [], ◌∷◌, ◌>>=◌,
}
use microrev.Constants.{kb128}
use microrev.Chain.{Memory, set_shuffled_linked_list}
use microrev.Chain.Follow.{follow}
use microrev.Latency.{Linking, link_lines, loop_back}
use microrev.Setup.{zero_fill}
use microrev.Bench.{Schedule, labelled}
use microrev.Counter.{Papi, Run, set_world}
use microrev.Counter.Output.{Line}
use microrev.Gather.{stats_all, counters_with_priority_schedule}

-- The outer loop around `tmp = *( local_iter ); local_iter = (char**)tmp;`
abbrev pub produce_blocks : ℕ → ℕ → Memory → ℕ → ℕ
produce_blocks zero line_cnt m local_iter = local_iter
produce_blocks (suc outer_line_cnt) line_cnt m local_iter =
    produce_blocks outer_line_cnt line_cnt m (follow line_cnt m local_iter)

-- The memory, and where the walk has come to.
pub record Produced : Type 0 where
  pub memory : Memory
  pub local_iter : ℕ

-- `int i`, which only grows in the first loop.
abbrev pub keeps_int : Option Linking → Option Linking
keeps_int none = none
keeps_int (some s) = if ltb s.index (2 ^ 31) then some s else none

-- The first loop is the one of standalone/rd_latency.c, but for its index; `none` is an overflow of it.
unfoldable pub init_stride : (ℕ → ℕ → ℕ) → ℕ → ℕ → ℕ → ℕ → Memory → Option Produced
unfolding zero_fill
init_stride dist arr local_arr size stride m = do
  m' ←
      loop_back arr stride
        (keeps_int (link_lines (suc size) arr size stride (record { memory = m; index = stride })))
  built ← set_shuffled_linked_list dist local_arr size stride (zero_fill local_arr size m')
  some (record {
    memory = built.memory;
    local_iter = produce_blocks (size / kb128) (kb128 / stride) built.memory local_arr;
  })

-- The arguments of `time_rd_latency`, by which a test is known.
pub record ReadTest : Type 0 where
  pub size : ℕ
  pub stride : ℕ

-- `test64B_64` to `test2048_64`, by their sizes.
abbrev pub of_size : ℕ → ReadTest
of_size size = record { size = size; stride = 64 }

abbrev pub test128_64 : ReadTest
test128_64 = of_size kb128

-- The schedule of `main`.
abbrev pub one_test : List (Schedule ReadTest)
one_test = labelled 1 test128_64 [] "128KB" ∷ []

-- `prepare` is what `init_stride` does to the machine.
module _ (P : Papi) (prepare : ReadTest → P.World → P.World) where
  abbrev pub build_only : ReadTest → Run P → Option (Run P)
  build_only t s = some (set_world s (prepare t s.world))

  -- `main`, over the lines of dump.dat.
  unfoldable pub run_program : List ℕ → List Line → P.World → Option (List Line × P.World)
  unfolding counters_with_priority_schedule stats_all
  run_program log dump w = do
    g ← counters_with_priority_schedule P build_only log one_test 0 w
    (dump', counters) ← stats_all P g.world dump g.counters
    some (dump', g.world)
