-- ===== src/Dump/Twice.antt =====
-- `run_test` of a producer and a consumer, whose counters `counters_with_schedule` has printed.
use mathlib.Core.List.{append_assoc}
use microrev.Common.{
  ℕ, suc, ◌≤◌, ◌<◌, ◌≡◌, refl, arith, false, some, List, [], ◌∷◌, ◌++◌, map, ◌==◌, length, ltb,
  ◌>>=◌,
}
use microrev.Shuffle.Order.{has, Distinct}
use microrev.Threads.{System, Reach, ended}
use microrev.Threads.Safety.{measured_once}
use microrev.Bench.{
  Body, Sched, producer_consumer, CorePlacement, Cores, core_c, core_b, test_schedule,
}
use microrev.Counter.{Papi, PapillCounter}
use microrev.Counter.Laws.{outside, Works, Known}
use microrev.Counter.Output.{Line, printed, stats}
use microrev.Gather.Laws.{body_timing, body-Benchmark, round_of}
use microrev.Gather.{body, Gathered, stats_all}
use microrev.Gather.Runs.{AllDone}
use microrev.Gather.Reports.{
  AllKept, Measuring, Measuring-Printing, Reports, AllDone-Kept, AllKept-printed, stats_all-Reports,
  counters_with_schedule-Reports,
}
use microrev.Dump.{header, stats_measured, schedule, run_test}
use microrev.Dump.Laws.{test_schedule-Runnable}
use Prim.Native.String.{String}

-- Where each entry has events, no counter is passed over.
stats_measured-all :
    (P : Papi) (w : P.World) (warmup : ℕ) (svec : List Sched) (cs : List PapillCounter)
    (dump : List Line)
    → Measuring svec
    → AllKept P warmup svec cs
    → stats_measured P w dump cs ≡ stats_all P w dump cs
unfolding stats_measured stats_all
stats_measured-all P w warmup [] [] dump measuring kept = refl
stats_measured-all P w warmup [] (c ∷ cs) dump measuring kept = elim kept [ ]
stats_measured-all P w warmup (e ∷ svec) [] dump measuring kept = elim kept [ ]
stats_measured-all P w warmup (e ∷ svec) (c ∷ cs) dump (filled, measuring) (now, kept) =
    let taken : (length c.cset == 0) ≡ false = ground (arith, now.codes) in
    rw taken (λ i. stats {P = P} dump (record { counter = c; world = w }) >>= λ x.
    stats_measured-all P w warmup svec cs x.0 measuring kept i >>= λ x'. some (x'.0, x.1 ∷ x'.1))

module _ (P : Papi) (works : Works P) (walk : Body → P.World → P.World)
    (walk_keeps : (b : Body) (w : P.World) → works.phase (walk b w) ≡ works.phase w)
    (cnt_vec : List String) (known : Known works cnt_vec) (filled : 0 < length cnt_vec)
    (room : length cnt_vec ≤ suc works.counters) (k : Cores) where
  -- The same, in an order that names each thread once.
  pub run_test-Twice :
      (log : List ℕ) (size : ℕ) (c : CorePlacement) (dump : List Line) (w : P.World)
      → ((i : ℕ) → has i log ≡ ltb i 2)
      → Distinct log
      → works.phase w ≡ outside
      → (lines : List Line) × (again : List Line) × (g : Gathered P) × (cs : List PapillCounter)
        × (run_test P walk k log size producer_consumer c cnt_vec dump w
            ≡ some ((dump ++ header size producer_consumer c k) ++ (lines ++ again), g))
        × AllDone P (round_of P walk) 0 (schedule k producer_consumer c cnt_vec) cs
        × Reports P 0 (schedule k producer_consumer c cnt_vec) cs lines
        × Reports P 0 (schedule k producer_consumer c cnt_vec) (map printed cs) again
        × (works.phase g.world ≡ outside)
  unfolding run_test test_schedule
  run_test-Twice log size c dump w all apart at_outside =
      let vec = schedule k producer_consumer c cnt_vec in
      let head = dump ++ header size producer_consumer c k in
      let measuring : Measuring vec = (filled, (filled, tt)) in
      let fits =
        test_schedule-Runnable P works cnt_vec known room producer_consumer k.core_src (core_b k c)
          (core_c k c) in
      let (cs, lines, w', returned, done, reports, still_outside) =
        counters_with_schedule-Reports P works (body P walk) (round_of P walk)
          (body-Benchmark P works walk walk_keeps) vec fits measuring log 0 head w all apart
          at_outside in
      let kept = AllKept-printed P 0 vec cs (AllDone-Kept P (round_of P walk) 0 vec cs done) in
      let (again, wrote, reports_again) =
        stats_all-Reports P w' 0 vec (map printed cs) (head ++ lines)
          (Measuring-Printing 0 vec measuring) kept in
      let no_skip = stats_measured-all P w' 0 vec (map printed cs) (head ++ lines) measuring kept in
      (
        lines,
        again,
        record { counters = map printed (map printed cs); world = w' },
        cs,
        rw (returned, no_skip, wrote, append_assoc head lines again) refl,
        done,
        reports,
        reports_again,
        still_outside,
      )

  -- The test of a producer and a consumer returns, in whatever order its two threads run. Each of the
  -- two counters is what its run has left: its counts are those that PAPI's stop gives, behind its
  -- start and the body; the producer keeps the clock at its start, the consumer the clock at its end.
  -- The reports of the two counters, the names of the events beside those counts, are printed twice,
  -- with the same counts: in the second round each average is added to the one of the first. This
  -- holds where the calls of PAPI keep to its order and there are events, no more than the counters
  -- of the machine, which it knows and can count together.
  pub run_test-prints_twice :
      {s : System} (size : ℕ) (c : CorePlacement) (dump : List Line) (w : P.World)
      → Reach 2 s
      → s.stage ≡ ended
      → works.phase w ≡ outside
      → (lines : List Line) × (again : List Line) × (g : Gathered P) × (cs : List PapillCounter)
        × (run_test P walk k s.log size producer_consumer c cnt_vec dump w
            ≡ some ((dump ++ header size producer_consumer c k) ++ (lines ++ again), g))
        × AllDone P (round_of P walk) 0 (schedule k producer_consumer c cnt_vec) cs
        × Reports P 0 (schedule k producer_consumer c cnt_vec) cs lines
        × Reports P 0 (schedule k producer_consumer c cnt_vec) (map printed cs) again
  run_test-prints_twice {s} size c dump w reach at_end at_outside =
      let (all, apart) = measured_once reach at_end in
      let (lines, again, g, cs, returned, done, reports, reports_again, still_outside) =
        run_test-Twice s.log size c dump w all apart at_outside in
      (lines, again, g, cs, returned, done, reports, reports_again)
