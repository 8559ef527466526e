-- ===== src/Measurement/Laws.antt =====
-- The sweep ends, and leaves three reports for each working set in dump.dat.
use mathlib.Core.List.{append_assoc, append-nil}
use microrev.Constants.{mb4}
use microrev.Common.{
  ℕ, zero, suc, ◌/◌, ◌*◌, ◌≤◌, ◌<◌, ◌≡◌, refl, ◌∙◌, arith, false, some, List, [], ◌++◌, ltb, lt→ltb,
  le→ltb_false, dec_lt, ◌==◌,
}
use microrev.Shuffle.Order.{has, Distinct}
use microrev.Bench.{Body}
use microrev.Counter.{Papi, PapillCounter}
use microrev.Counter.Laws.{outside, Works, Known}
use microrev.Counter.Output.{Line}
use microrev.Gather.{body, counters_with_priority_schedule}
use microrev.Gather.Laws.{body_timing, body-Benchmark, round_of, Runnable}
use microrev.Gather.Runs.{AllDone, gathered-AllDone}
use microrev.Gather.Reports.{Reports, AllDone-Kept, stats_all-Reports}
use microrev.Measurement.{accesses, misses, second_level, entries, measure, sweep, main_sweep}
use Prim.Native.String.{String}

-- The lines for `n` and its halves, down to 1: for each the reports of three counters that had not
-- been printed.
pub data Swept (P : Papi) (walk : Body → P.World → P.World) (to_string : ℕ → String)
    : ℕ → List Line → Type 0 where
  over : Swept P walk to_string 0 []
  halve :
      {n : ℕ} (own rest : List Line) (cs : List PapillCounter)
      → 0 < n
      → AllDone P (round_of P walk) 5 (entries (to_string n)) cs
      → Reports P 5 (entries (to_string n)) cs own
      → Swept P walk to_string (n / 2) rest
      → Swept P walk to_string n (own ++ rest)

module _ (P : Papi) (works : Works P) (walk : Body → P.World → P.World)
    (walk_keeps : (b : Body) (w : P.World) → works.phase (walk b w) ≡ works.phase w)
    (prepare : ℕ → P.World → P.World)
    (prepare_keeps : (size : ℕ) (w : P.World) → works.phase (prepare size w) ≡ works.phase w)
    (to_string : ℕ → String) (known_accesses : Known works accesses)
    (known_misses : Known works misses) (known_second : Known works second_level)
    (room : 3 ≤ suc works.counters) where
  measure-Reports :
      (log : List ℕ) (cache_size n : ℕ) (dump : List Line) (w : P.World)
      → ((j : ℕ) → has j log ≡ ltb j 3)
      → Distinct log
      → works.phase w ≡ outside
      → (own : List Line) × (cs : List PapillCounter) × (w' : P.World) × (measure P walk prepare
            to_string log cache_size n dump w
          ≡ some (dump ++ own, w'))
        × AllDone P (round_of P walk) 5 (entries (to_string n)) cs
        × Reports P 5 (entries (to_string n)) cs own
        × (works.phase w' ≡ outside)
  unfolding measure counters_with_priority_schedule
  measure-Reports log cache_size n dump w all apart at =
      let vec = entries (to_string n) in
      let fits : Runnable P works vec =
        (known_accesses, omega arith, (known_misses, room, (known_second, omega arith, tt))) in
      let (cs, w1, g, made, returned, done, still) =
        gathered-AllDone P works (body P walk) (round_of P walk)
          (body-Benchmark P works walk walk_keeps) vec fits 5 log (prepare (cache_size * n) w) all
          apart (prepare_keeps (cache_size * n) w ∙ at) in
      let (own, printed_now, reports) =
        stats_all-Reports P g.world 5 vec g.counters dump
          (omega arith, (omega arith, (omega arith, tt)))
          (AllDone-Kept P (round_of P walk) 5 vec g.counters done) in
      (own, g.counters, g.world, rw (made, returned, printed_now) refl, done, reports, still)

  module _ (order : ℕ → List ℕ)
      (complete : (n : ℕ) → ((j : ℕ) → has j (order n) ≡ ltb j 3) × Distinct (order n)) where
    sweep-Swept :
        (fuel cache_size n : ℕ) (dump : List Line) (w : P.World)
        → n < fuel
        → works.phase w ≡ outside
        → (lines : List Line) × (w' : P.World) × (sweep P walk prepare to_string order fuel
              cache_size n dump w
            ≡ some (dump ++ lines, w'))
          × Swept P walk to_string n lines
    unfolding sweep
    sweep-Swept zero cache_size n dump w enough at = absurd (omega arith)
    sweep-Swept (suc fuel) cache_size n dump w enough at = elim (dec_lt 0 n) [
      | yes some_left ↦
          let (all, apart) = complete n in
          let (own, cs, w1, once, done, reports, still) =
            measure-Reports (order n) cache_size n dump w all apart at in
          let (rest, w2, later, swept) =
            sweep-Swept fuel cache_size (n / 2) (dump ++ own) w1 (omega arith) still in
          (
            own ++ rest,
            w2,
            rw (lt→ltb 0 n some_left, sweep, once, later, append_assoc dump own rest) refl,
            halve own rest cs some_left done reports swept,
          )
      | no none_left ↦
          let is_zero : n ≡ 0 = omega arith in
          ([], w, rw (le→ltb_false 0 n (omega arith), sweep, append-nil dump) refl, rw is_zero over)
    ]

    -- For a cache size of 1 or more the program returns, and dump.dat has the reports of the three
    -- readers for each n = 4 MB / cache_size, and its halves down to 1: the names of the events beside
    -- the counts that PAPI's stop gives at the end of the last run, and the time of that run, the clock
    -- behind the walk less the clock before it. This holds where the calls of PAPI keep to its order,
    -- the machine knows the events of each reader and can count them together, it has three counters
    -- or more, and each worker of a schedule ends once.
    pub main_sweep-Swept :
        (cache_size : ℕ) (dump : List Line) (w : P.World)
        → 0 < cache_size
        → works.phase w ≡ outside
        → (lines : List Line) × (w' : P.World) × (main_sweep P walk prepare to_string order
              cache_size dump w
            ≡ some (dump ++ lines, w'))
          × Swept P walk to_string (mb4 / cache_size) lines
    unfolding main_sweep
    main_sweep-Swept cache_size dump w some_size at =
        let (lines, w', returned, swept) =
          sweep-Swept (suc (mb4 / cache_size)) cache_size (mb4 / cache_size) dump w (omega arith)
            at in
        let not_zero : (cache_size == 0) ≡ false = ground arith in
        (lines, w', rw (not_zero, returned) refl, swept)
