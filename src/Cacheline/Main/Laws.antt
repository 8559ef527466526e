-- ===== src/Cacheline/Main/Laws.antt =====
-- What cacheline.cpp prints.
use microrev.Common.{◌≡◌, ◌∙◌, refl, arith, some, List, [], length, map, replicate, Bool, false}
use microrev.Counter.{Papi, PapillCounter, nought, set_world}
use microrev.Counter.Rounds.{Rounding, Frame, clocked_around}
use microrev.Counter.Laws.{outside, Works}
use microrev.Counter.Steps.{steady}
use microrev.Counter.Frames.{Benchmark}
use microrev.Counter.Thread.{timed-Benchmark, kept_in_all}
use microrev.Counter.Output.{Line}
use microrev.Gather.{counters_with_priority_schedule}
use microrev.Priority.{System, Reach, ended}
use microrev.Priority.Safety.{in_order_complete}
use microrev.Gather.Laws.{Timing, Runnable}
use microrev.Gather.Runs.{AllDone, gathered-AllDone}
use microrev.Gather.Reports.{Reports, AllKept-times, Printing, AllDone-Kept, stats_all-Reports}
use microrev.Cacheline.Main.{LatencyTest, vec, time_rd_latency, main}

-- A test keeps one time in a run.
instance abbrev pub latency_timing : Timing LatencyTest
latency_timing = record { times_of = λ t. 1; overwrites = λ t. false }

-- The array is built, and then the walk is timed.
abbrev pub timed_walk :
    (P : Papi)
    → (LatencyTest → P.World → P.World)
    → (LatencyTest → P.World → P.World)
    → Rounding P LatencyTest
timed_walk P prepare walk t n s s' =
    Frame {P = P} (clocked_around P (walk t)) n (set_world s (prepare t s.world)) s'

each_four : map (λ e. kept_in_all 1 e.events 3) vec ≡ replicate 8 4
each_four = refl

module _ (P : Papi) (works : Works P) (prepare walk : LatencyTest → P.World → P.World)
    (prepare_keeps : (t : LatencyTest) (w : P.World) → works.phase (prepare t w) ≡ works.phase w)
    (walk_keeps : (t : LatencyTest) (w : P.World) → works.phase (walk t w) ≡ works.phase w) where
  time_rd_latency-Benchmark :
      (t : LatencyTest)
      → Benchmark works
          (steady nought)
          1
          (timed_walk P prepare walk t)
          (time_rd_latency P prepare walk t)
  time_rd_latency-Benchmark t = record {
    run = λ core label n k s st.
        (timed-Benchmark works (walk t) (walk_keeps t) nought).run core label n k
          (set_world s (prepare t s.world))
          (record {
            phase = prepare_keeps t s.world ∙ st.phase;
            events = st.events;
            cycles = st.cycles;
            pinned = st.pinned;
            room = st.room;
          });
  }

  fits : Runnable P works vec
  fits = ground arith

  printing : Printing 3 vec
  printing = ground arith

  -- cacheline.cpp returns, once the threads of its schedule have ended, and prints the reports of its
  -- eight tests, in order. Each has no event, and the average of the times of all four runs of its
  -- test, those of the warm-up included, since nothing clears them; each time is the clock behind the
  -- walk less the clock before it, on an array built anew. This holds where the calls of PAPI keep to
  -- its order.
  pub main-Reports :
      {entry : Bool} {s : System} (w : P.World)
      → Reach (length vec) entry s
      → s.turn ≡ ended
      → works.phase w ≡ outside
      → (cs : List PapillCounter) × (out : List Line) × (w' : P.World) × (main P prepare walk s.log
            w
          ≡ some (out, w'))
        × AllDone P (timed_walk P prepare walk) 3 vec cs
        × Reports P 3 vec cs out
        × (map (λ c. length c.vec_cycles_measured) cs ≡ replicate 8 4)
  unfolding main counters_with_priority_schedule
  main-Reports {s} w reach at_end at =
      let (all, apart) = in_order_complete reach at_end in
      let (cs, w1, g, made, returned, done, still) =
        gathered-AllDone P works (time_rd_latency P prepare walk) (timed_walk P prepare walk)
          time_rd_latency-Benchmark vec fits 3 s.log w all apart at in
      let kept = AllDone-Kept P (timed_walk P prepare walk) 3 vec g.counters done in
      let (own, printed_now, reports) =
        stats_all-Reports P g.world 3 vec g.counters [] printing kept in
      (
        g.counters,
        own,
        g.world,
        rw (made, returned, printed_now) refl,
        done,
        reports,
        AllKept-times P 3 vec g.counters kept ∙ each_four,
      )
