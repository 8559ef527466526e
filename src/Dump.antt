-- ===== src/Dump.antt =====
-- `run_test` of src/library/include/benchmark_helpers.h (macro BENCHMARK_INIT), as a whole: the lines
-- that it adds to dump.dat before a schedule, the schedule of `Bench`, its counters from `Gather`,
-- and what it prints of them.
pub mod Laws
pub mod Twice
mod Tests
use microrev.Common.{
  ℕ, Bool, true, false, Option, none, some, List, [], ◌∷◌, ◌++◌, ◌==◌, length, ◌>>=◌, if◌then◌else◌,
}
use microrev.Bench.{
  Body, Sched, MesiType, producer_consumer, store_on_modified, store_on_exclusive,
  store_on_shared_or_forward, store_on_invalid, load_from_modified, load_from_exclusive,
  load_from_shared_or_forward, load_from_invalid, flush, CorePlacement, local, socket, global,
  Cores, core_b, core_c, test_schedule,
}
use microrev.Counter.{Papi, PapillCounter}
use microrev.Counter.Output.{Line, test_run, working_set, test_name, core_setting, stats}
use microrev.Gather.{body, Gathered, counters_with_schedule, counters_with_priority_schedule}
use Prim.Native.String.{String}

-- The table, at the number of a test.
unfoldable pub mesi_type_des : MesiType → String
mesi_type_des producer_consumer = "PRODUCER_CONSUMER"
mesi_type_des store_on_modified = "STORE_ON_MODIFIED"
mesi_type_des store_on_exclusive = "STORE_ON_EXCLUSIVE"
mesi_type_des store_on_shared_or_forward = "STORE_ON_SHARED_OR_FORWARD"
mesi_type_des store_on_invalid = "STORE_ON_INVALID"
mesi_type_des load_from_modified = "LOAD_FROM_MODIFIED"
mesi_type_des load_from_exclusive = "LOAD_FROM_EXCLUSIVE"
mesi_type_des load_from_shared_or_forward = "LOAD_FROM_SHARED_OR_FORWARD"
mesi_type_des load_from_invalid = "LOAD_FROM_INVALID"
mesi_type_des flush = "FLUSH"

abbrev pub core_placement_des : CorePlacement → String
core_placement_des local = "LOCAL"
core_placement_des socket = "SOCKET"
core_placement_des global = "GLOBAL"

-- The four lines at the head of a test.
abbrev pub header : ℕ → MesiType → CorePlacement → Cores → List Line
header size t c k =
    test_run
    ∷ working_set size
    ∷ test_name (mesi_type_des t)
    ∷ core_setting (core_placement_des c) k.core_src (core_b k c) (core_c k c)
    ∷ []

-- `t == PRODUCER_CONSUMER`
abbrev pub is_producer_consumer : MesiType → Bool
is_producer_consumer producer_consumer = true
is_producer_consumer t = false

-- The last loop: `stats` for each counter that has an event.
unfoldable pub stats_measured :
    (P : Papi) → P.World → List Line → List PapillCounter → Option (List Line × List PapillCounter)
stats_measured P w dump [] = some (dump, [])
stats_measured P w dump (c ∷ cs) = do
  (dump', c') ←
      (if length c.cset == 0
        then some (dump, c)
        else stats {P = P} dump (record { counter = c; world = w }))
  (dump'', cs') ← stats_measured P w dump' cs
  some (dump'', c' ∷ cs')

-- The entries of the test.
abbrev pub schedule : Cores → MesiType → CorePlacement → List String → List Sched
schedule k t c cnt_vec = test_schedule t k.core_src (core_b k c) (core_c k c) cnt_vec

module _ (P : Papi) (walk : Body → P.World → P.World) where
  -- The call of one of the schedulers, the second with its default of no warm-up round.
  abbrev pub gather :
      List ℕ → MesiType → List Sched → List Line → P.World → Option (List Line × Gathered P)
  gather log t vec dump w =
      if is_producer_consumer t
      then counters_with_schedule P (body P walk) log vec 0 dump w
      else (do g ← counters_with_priority_schedule P (body P walk) log vec 0 w; some (dump, g))

  -- `log` is the order in which the workers end, the last first.
  unfoldable pub run_test :
      Cores
      → List ℕ
      → ℕ
      → MesiType
      → CorePlacement
      → List String
      → List Line
      → P.World
      → Option (List Line × Gathered P)
  unfolding counters_with_schedule counters_with_priority_schedule stats_measured mesi_type_des
  run_test k log size t c cnt_vec dump w = do
    (dump', g) ← gather log t (schedule k t c cnt_vec) (dump ++ header size t c k) w
    (dump'', cs) ← stats_measured P g.world dump' g.counters
    some (dump'', record g { counters = cs })
