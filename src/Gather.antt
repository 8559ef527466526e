-- ===== src/Gather.antt =====
-- src/library/include/thread_utils.h: what the two schedulers do to their counters. `Threads` and
-- `Priority` show that the workers run one at a time, each once; the order in which they end is an
-- argument here, as the log of those systems, whose last entry comes first.
pub mod Laws
pub mod Runs
pub mod Reports
mod Tests
use microrev.Common.{
  ℕ, zero, suc, Option, none, some, List, [], ◌∷◌, get_elem?, set, length, ◌>>=◌, ltb,
  if◌then◌else◌, true, false,
}
use microrev.Common.Int.{ℤ}
use microrev.Average.{from_u64}
use microrev.Bench.{Body, flusher, reader, writer, producer, consumer, demoter, Schedule}
use microrev.Counter.{Papi, PapillCounter, Run, set_world, framed, timed, counter_thread_fn}
use microrev.Counter.Init.{new_counters}
use microrev.Counter.Output.{Line, stats}

-- The counters of a schedule, and the machine.
pub record Gathered (P : Papi) : Type 0 where
  pub counters : List PapillCounter
  pub world : P.World

-- The bodies of BENCHMARK_INIT, as a counter sees them; `walk` is what their loops do to the machine.
module _ (P : Papi) (walk : Body → P.World → P.World) where
  -- `producer_` keeps the time at which it starts, `consumer_` the time at which it ends.
  abbrev pub started_at : P.World → ℤ × P.World
  started_at w = let (begin, w') = P.rdtsc w in (from_u64 begin, walk producer w')

  abbrev pub ended_at : P.World → ℤ × P.World
  ended_at w = let (finish, w') = P.rdtsc (walk consumer w) in (from_u64 finish, w')

  abbrev pub body : Body → Run P → Option (Run P)
  body flusher s = some (set_world s (walk flusher s.world))
  body reader s = timed (walk reader) s
  body writer s = timed (walk writer) s
  body producer s = framed started_at s
  body consumer s = framed ended_at s
  body demoter s = some (set_world s (walk demoter s.world))

-- The schedulers, for benchmarks of any kind.
module _ (P : Papi) {B : Type 0} (body : B → Run P → Option (Run P)) where
  -- Worker `i`, which is given its counter after the scheduler has labelled it.
  unfoldable pub worker : List (Schedule B) → ℕ → ℕ → Gathered P → Option (Gathered P)
  worker svec warmup i g = do
    e ← get_elem? svec i
    c ← get_elem? g.counters i
    left ←
        counter_thread_fn e.events e.core_id (body e.benchmark) warmup
          (record { counter = record c { label = e.label }; world = g.world })
    some (record { counters = set g.counters i left.counter; world = left.world })

  unfoldable pub run_log : List (Schedule B) → ℕ → List ℕ → Gathered P → Option (Gathered P)
  unfolding worker
  run_log svec warmup [] g = some g
  run_log svec warmup (i ∷ log) g = run_log svec warmup log g >>= worker svec warmup i

  unfoldable pub counters_with_priority_schedule :
      List ℕ → List (Schedule B) → ℕ → P.World → Option (Gathered P)
  unfolding run_log new_counters
  counters_with_priority_schedule log svec warmup w = do
    made ← new_counters P (length svec) w
    run_log svec warmup log (record { counters = made.0; world = made.1 })

-- `for( auto& cnt: counters ) cnt.stats();`
unfoldable pub stats_all :
    (P : Papi) → P.World → List Line → List PapillCounter → Option (List Line × List PapillCounter)
stats_all P w dump [] = some (dump, [])
stats_all P w dump (c ∷ counters) = do
  (dump', c') ← stats {P = P} dump (record { counter = c; world = w })
  (dump'', counters') ← stats_all P w dump' counters
  some (dump'', c' ∷ counters')

module _ (P : Papi) {B : Type 0} (body : B → Run P → Option (Run P)) where
  -- The counters are printed before they are returned.
  unfoldable pub counters_with_schedule :
      List ℕ → List (Schedule B) → ℕ → List Line → P.World → Option (List Line × Gathered P)
  unfolding run_log new_counters stats_all
  counters_with_schedule log svec warmup dump w = do
    made ← new_counters P (length svec) w
    g ← run_log P body svec warmup log (record { counters = made.0; world = made.1 })
    (dump', counters') ← stats_all P g.world dump g.counters
    some (dump', record g { counters = counters' })
