-- ===== src/Cache/Reports.antt =====
-- What cache.cpp prints.
use microrev.Common.{
  nil_of_length, ◌+◌, ◌-◌, ◌%◌, ◌^◌, ℕ, suc, ap, subst, ◌≤◌, ◌≡◌, ◌∙◌, refl, arith, true, some,
  List, [], ◌∷◌, ◌++◌, map, length,
}
use microrev.Bench.{Schedule}
use microrev.Counter.Thread.{kept_in_all}
use Prim.Native.String.{String}
use microrev.Shuffle.{candidates_from}
use microrev.Shuffle.Cycle.{Closes}
use microrev.Shuffle.Single.{shuffle_array-Closes}
use microrev.Threads.{System, Reach, ended}
use microrev.Counter.{Papi, PapillCounter, Run, set_world, of_u64}
use microrev.Counter.Rounds.{Bracket, Rounding}
use microrev.Counter.Laws.{outside, Works, Known}
use microrev.Counter.Steps.{any, clocked, Standing}
use microrev.Counter.Frames.{Benchmark, bracketed-Standing}
use microrev.Counter.Output.{Line, printed}
use microrev.Gather.Laws.{Timing, Runnable}
use microrev.Gather.Runs.{AllDone}
use microrev.Gather.Reports.{Reports, Measuring, counters_with_schedule-in_order}
use microrev.Cache.{WorkingSet, dcache_events, three_cores, pointers, between, doloops, cache}

-- A test keeps no time, and writes over `cycles_measured`.
instance abbrev pub working_set_timing : Timing WorkingSet
working_set_timing = record { times_of = λ t. 0; overwrites = λ t. true }

-- The clock before and after a walk, and the number of cycles between.
abbrev pub cycles_around : (P : Papi) → (P.World → P.World) → P.World → ℕ × P.World
cycles_around P walk w =
    let (start, w1) = P.rdtsc w in
    let (end, w2) = P.rdtsc (walk w1) in ((end + 2 ^ 64 - start) % 2 ^ 64, w2)

-- The working set is prepared and walked once, and the cycles of the walk are written in the counter.
abbrev pub counted_walk :
    (P : Papi)
    → (WorkingSet → P.World → P.World)
    → (WorkingSet → P.World → P.World)
    → Rounding P WorkingSet
counted_walk P prepare walk t n s s' =
    (cycles : ℕ) × (stopped : Run P) × Bracket {P = P} (cycles_around P (walk t)) n cycles
      (set_world s (prepare t s.world)) stopped
    × (s' ≡ record stopped { counter = record stopped.counter { cycles_measured = of_u64 cycles } })

-- Each counter has kept no time, and has a number of cycles in `cycles_measured`.
abbrev pub AllClocked : List PapillCounter → Type 0
AllClocked [] = Unit
AllClocked (c ∷ cs) =
    (c.vec_cycles_measured ≡ [])
    × ((cycles : ℕ) × (c.cycles_measured ≡ of_u64 cycles))
    × AllClocked cs

no_time_kept : (events : List String) (warmup : ℕ) → kept_in_all 0 events warmup ≡ 0
no_time_kept [] warmup = omega arith
no_time_kept (e ∷ events) warmup = refl

AllDone-Clocked :
    (P : Papi) (round : Rounding P WorkingSet) (warmup : ℕ) (svec : List (Schedule WorkingSet))
    (cs : List PapillCounter)
    → AllDone P round warmup svec cs
    → AllClocked cs
AllDone-Clocked P round warmup [] [] done = tt
AllDone-Clocked P round warmup [] (c ∷ cs) done = elim done [ ]
AllDone-Clocked P round warmup (e ∷ svec) [] done = elim done [ ]
AllDone-Clocked P round warmup (e ∷ svec) (c ∷ cs) ((done, worked), rest) = (
  nil_of_length c.vec_cycles_measured (done.times ∙ no_time_kept e.events warmup),
  done.pinned.2,
  AllDone-Clocked P round warmup svec cs rest,
)

length-AllDone :
    (P : Papi) (round : Rounding P WorkingSet) (warmup : ℕ) (svec : List (Schedule WorkingSet))
    (cs : List PapillCounter)
    → AllDone P round warmup svec cs
    → length cs ≡ length svec
length-AllDone P round warmup [] [] done = refl
length-AllDone P round warmup [] (c ∷ cs) done = elim done [ ]
length-AllDone P round warmup (e ∷ svec) [] done = elim done [ ]
length-AllDone P round warmup (e ∷ svec) (c ∷ cs) (done, rest) =
    ap suc (length-AllDone P round warmup svec cs rest)

module _ (P : Papi) (works : Works P) (prepare walk : WorkingSet → P.World → P.World)
    (prepare_keeps : (t : WorkingSet) (w : P.World) → works.phase (prepare t w) ≡ works.phase w)
    (walk_keeps : (t : WorkingSet) (w : P.World) → works.phase (walk t w) ≡ works.phase w) where
  between-phase :
      (t : WorkingSet) (w : P.World) → works.phase (between P prepare walk t w).1 ≡ works.phase w
  between-phase t w =
      works.rdtsc (walk t (P.rdtsc w).1) ∙ walk_keeps t (P.rdtsc w).1 ∙ works.rdtsc w

  doloops-Benchmark :
      (t : WorkingSet)
      → Benchmark works clocked 0 (counted_walk P prepare walk t) (doloops P prepare walk t)
  unfolding doloops
  doloops-Benchmark t = record {
    run = λ core label n k s st.
        let ready : Standing works (core, label, any) n k (set_world s (prepare t s.world)) =
          record {
            phase = prepare_keeps t s.world ∙ st.phase;
            events = st.events;
            cycles = st.cycles;
            pinned = st.pinned;
            room = st.room;
          } in
        let (cycles, s', done, st', one_each, bracket) =
          bracketed-Standing works (between P prepare walk t) (between-phase t) (core, label, any) n
            k _ ready in
        (
          record s' { counter = record s'.counter { cycles_measured = of_u64 cycles } },
          rw done refl,
          (
            record {
              phase = st'.phase;
              events = st'.events;
              cycles = omega (arith, st'.cycles);
              pinned = (st'.pinned.0, st'.pinned.1, (cycles, refl));
              room = st'.room;
            },
            λ full. one_each,
            (cycles, s', bracket, refl),
            bracket.codes,
          ),
        );
  }

  fits : Known works dcache_events → 2 ≤ suc works.counters → Runnable P works three_cores
  fits known room = (known, room, (known, room, (known, room, tt)))

  measuring : Measuring three_cores
  measuring = ground arith

  -- cache.cpp returns, once the threads of its schedule have ended in whatever order. The five
  -- pointers are then in one cycle, and dump.dat has got the reports of the three cores, in order:
  -- the names of the two events beside the counts that PAPI's stop gives at the end of the last run,
  -- no time, and `cycles_measured`, which is the number of cycles by the clock between the start and
  -- the end of that run's walk. This holds where the calls of PAPI keep to its order, the machine
  -- knows the two events and can count them together, it has two counters or more, and the numbers
  -- that the shuffle draws are in range.
  pub cache-Reports :
      (dist : ℕ → ℕ → ℕ)
      → ((round bound : ℕ) → dist round bound ≤ bound)
      → Known works dcache_events
      → 2 ≤ suc works.counters
      → {s : System} (dump : List Line) (w : P.World) → Reach (length three_cores) s
      → s.stage ≡ ended
      → works.phase w ≡ outside
      → (a : List ℕ) × (cs : List PapillCounter) × (lines : List Line) × (w' : P.World) × (cache P
            prepare walk dist s.log dump w
          ≡ some (a, dump ++ lines, record { counters = map printed cs; world = w' }))
        × Closes pointers pointers 0 (candidates_from 1 4) (some a)
        × AllDone P (counted_walk P prepare walk) 5 three_cores cs
        × Reports P 5 three_cores cs lines
        × AllClocked cs
        × (length cs ≡ 3)
  unfolding cache
  cache-Reports dist in_range known room {s} dump w reach at_end at =
      let closed = shuffle_array-Closes dist in_range 0 (1 ∷ 2 ∷ 3 ∷ 4 ∷ []) (omega arith) in
      let (cs, lines, w', returned, done, reports) =
        counters_with_schedule-in_order P works (doloops P prepare walk)
          (counted_walk P prepare walk) doloops-Benchmark three_cores (fits known room) measuring 5
          dump w reach at_end at in
      (
        closed.result,
        cs,
        lines,
        w',
        rw (closed.returned, returned) refl,
        subst (Closes pointers pointers 0 (candidates_from 1 4)) closed.returned closed,
        done,
        reports,
        AllDone-Clocked P (counted_walk P prepare walk) 5 three_cores cs done,
        length-AllDone P (counted_walk P prepare walk) 5 three_cores cs done,
      )
