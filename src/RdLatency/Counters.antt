-- ===== src/RdLatency/Counters.antt =====
-- What rd_latency.cpp writes to dump.dat.
use mathlib.Core.List.{append-nil}
use microrev.Common.{
  ℕ, ◌+◌, ◌≡◌, refl, arith, some, List, [], ◌∷◌, length, Bool, true, false, ◌==◌, ◌&&◌,
}
use microrev.Bench.{Schedule}
use microrev.Counter.{Papi, PapillCounter, nought}
use microrev.Counter.Rounds.{Unframed}
use microrev.Counter.Laws.{outside, Works}
use microrev.Counter.Steps.{steady}
use microrev.Counter.Frames.{Benchmark}
use microrev.Counter.Thread.{kept_in_all}
use microrev.Counter.Output.{Line, stats, stats_to_stream}
use microrev.Gather.{stats_all, counters_with_priority_schedule}
use microrev.Gather.Laws.{Timing, times_of, Runnable, plain-Benchmark}
use microrev.Gather.Runs.{gathered-AllDone}
use microrev.Gather.Reports.{AllKept, Kept, AllDone-Kept}
use microrev.Priority.{System, Reach, ended}
use microrev.Priority.Safety.{in_order_complete}
use microrev.RdLatency.{ReadTest, build_only, one_test, run_program}

-- A test keeps no time.
instance abbrev pub read_timing : Timing ReadTest
read_timing = record { times_of = λ t. 0; overwrites = λ t. false }

-- No entry has an event, or keeps a time.
abbrev pub Silent : {B : Type 0} ⦃t : Timing B⦄ → ℕ → List (Schedule B) → Type 0
Silent warmup [] = Unit
Silent warmup (e ∷ svec) =
    (length e.events + kept_in_all (times_of e.benchmark) e.events warmup ≡ 0) × Silent warmup svec

module _ (P : Papi) {B : Type 0} ⦃t : Timing B⦄ where
  stats-Silent :
      (w : P.World) (warmup : ℕ) (e : Schedule B) (c : PapillCounter) (dump : List Line)
      → length e.events + kept_in_all (times_of e.benchmark) e.events warmup ≡ 0
      → Kept P warmup e c
      → stats {P = P} dump (record { counter = c; world = w }) ≡ some (dump, c)
  unfolding stats_to_stream
  stats-Silent w warmup e c dump nothing now =
      let same : (length c.cset == length c.measured) ≡ true =
        ground (arith, now.codes, now.counts) in
      let idle : (length c.cset == 0 && length c.vec_cycles_measured == 0) ≡ true =
        ground (arith, now.codes, now.times) in
      rw (same, idle, append-nil) refl

  -- Such counters print nothing, and stay as they are.
  pub stats_all-Silent :
      (w : P.World) (warmup : ℕ) (svec : List (Schedule B)) (cs : List PapillCounter)
      (dump : List Line)
      → Silent warmup svec
      → AllKept P warmup svec cs
      → stats_all P w dump cs ≡ some (dump, cs)
  unfolding stats_all
  stats_all-Silent w warmup [] [] dump silent kept = refl
  stats_all-Silent w warmup [] (c ∷ cs) dump silent kept = elim kept [ ]
  stats_all-Silent w warmup (e ∷ svec) [] dump silent kept = elim kept [ ]
  stats_all-Silent w warmup (e ∷ svec) (c ∷ cs) dump (nothing, silent) (now, kept) =
      rw
        (
          stats-Silent w warmup e c dump nothing now,
          stats_all-Silent w warmup svec cs dump silent kept,
        )
        refl

module _ (P : Papi) (works : Works P) (prepare : ReadTest → P.World → P.World)
    (prepare_keeps : (t : ReadTest) (w : P.World) → works.phase (prepare t w) ≡ works.phase w) where
  build_only-Benchmark :
      (t : ReadTest)
      → Benchmark works (steady nought) 0 (Unframed {P = P} (prepare t)) (build_only P prepare t)
  build_only-Benchmark t = plain-Benchmark P works nought (prepare t) (prepare_keeps t)

  fits : Runnable P works one_test
  fits = ground arith

  silent : Silent 0 one_test
  silent = (refl, tt)

  -- rd_latency.cpp returns, once the thread of its schedule has ended, and dump.dat is as before: its
  -- counter has measured neither an event nor a time. This holds where the calls of PAPI keep to its
  -- order.
  run_program-unchanged :
      {entry : Bool} {s : System} (dump : List Line) (w : P.World)
      → Reach (length one_test) entry s
      → s.turn ≡ ended
      → works.phase w ≡ outside
      → (w' : P.World) × (run_program P prepare s.log dump w ≡ some (dump, w'))
        × (works.phase w' ≡ outside)
  unfolding run_program counters_with_priority_schedule
  run_program-unchanged {s} dump w reach at_end at =
      let (all, apart) = in_order_complete reach at_end in
      let (cs, w1, g, made, returned, done, still) =
        gathered-AllDone P works (build_only P prepare) (λ t. Unframed {P = P} (prepare t))
          build_only-Benchmark one_test fits 0 s.log w all apart at in
      let kept = AllDone-Kept P (λ t. Unframed {P = P} (prepare t)) 0 one_test g.counters done in
      (
        g.world,
        rw (made, returned, stats_all-Silent P g.world 0 one_test g.counters dump silent kept) refl,
        still,
      )
