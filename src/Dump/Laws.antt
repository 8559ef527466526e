-- ===== src/Dump/Laws.antt =====
-- `run_test` prints the reports of the entries that have events.
use mathlib.Core.List.{append_assoc, append-nil}
use microrev.Common.{
  Bool, ℕ, suc, ◌≤◌, ◌≡◌, refl, arith, true, false, some, List, [], ◌∷◌, ◌++◌, ◌==◌, length, ltb,
  inl, inr, if◌then◌else◌,
}
use microrev.Shuffle.Order.{has, Distinct}
use microrev.Priority.{System, Reach, ended}
use microrev.Priority.Safety.{in_order_complete}
use microrev.Bench.{
  Body, Sched, MesiType, producer_consumer, store_on_modified, store_on_exclusive,
  store_on_shared_or_forward, store_on_invalid, load_from_modified, load_from_exclusive,
  load_from_shared_or_forward, load_from_invalid, flush, CorePlacement, Cores, core_b, core_c,
  is_nil, init_state, test_schedule, measured_only,
}
use microrev.Counter.{Papi, PapillCounter, nought}
use microrev.Counter.Rounds.{Rounding}
use microrev.Counter.Laws.{outside, Works, Known}
use microrev.Counter.Output.{Line, printed}
use microrev.Gather.{body, Gathered, counters_with_priority_schedule}
use microrev.Gather.Laws.{body_timing, body-Benchmark, round_of, Runnable}
use microrev.Gather.Runs.{AllDone, gathered-AllDone}
use microrev.Gather.Reports.{is_nil-cases, AllKept, Kept, Reports, AllDone-Kept, stats-Report}
use microrev.Dump.{header, is_producer_consumer, stats_measured, schedule, run_test}
use Prim.Native.String.{String}

-- The counters have not been printed.
abbrev pub AllUnprinted : List PapillCounter → Type 0
AllUnprinted [] = Unit
AllUnprinted (c ∷ cs) = (c.cycles_measured ≡ nought) × AllUnprinted cs

AllDone-AllUnprinted :
    (P : Papi) (round : Rounding P Body) (warmup : ℕ) (svec : List Sched) (cs : List PapillCounter)
    → AllDone P round warmup svec cs
    → AllUnprinted cs
AllDone-AllUnprinted P round warmup [] [] done = tt
AllDone-AllUnprinted P round warmup [] (c ∷ cs) done = elim done [ ]
AllDone-AllUnprinted P round warmup (e ∷ svec) [] done = elim done [ ]
AllDone-AllUnprinted P round warmup (e ∷ svec) (c ∷ cs) ((done, worked), rest) =
    (done.pinned.2, AllDone-AllUnprinted P round warmup svec cs rest)

-- The counters of the entries that have events.
abbrev pub counters_of : List Sched → List PapillCounter → List PapillCounter
counters_of [] cs = []
counters_of (e ∷ svec) [] = []
counters_of (e ∷ svec) (c ∷ cs) =
    if is_nil e.events then counters_of svec cs else c ∷ counters_of svec cs

module _ (P : Papi) (w : P.World) (warmup : ℕ) where
  -- The last loop of `run_test` returns, and prints the reports of the entries with events.
  abbrev Shows : List Sched → List PapillCounter → List Line → Type 0
  Shows svec cs dump =
      (lines : List Line) × (left : List PapillCounter) × (stats_measured P w dump cs
        ≡ some (dump ++ lines, left))
      × Reports P warmup (measured_only svec) (counters_of svec cs) lines

  -- By the events of the first entry.
  Shows-next :
      (e : Sched) (svec : List Sched) (c : PapillCounter) (cs : List PapillCounter)
      (dump : List Line)
      → Kept P warmup e c
      → ((dump' : List Line) → Shows svec cs dump')
      → Shows (e ∷ svec) (c ∷ cs) dump
  unfolding stats_measured
  Shows-next e svec c cs dump now others = elim (is_nil-cases e.events) [
    | inl (none_there, empty) ↦
        let (lines, left, later, reports) = others dump in
        let skipped : (length c.cset == 0) ≡ true = ground (arith, now.codes) in
        (lines, c ∷ left, rw (skipped, later) refl, rw none_there reports)
    | inr (some_there, filled) ↦
        let (own, wrote, report) = stats-Report P w warmup e c dump (omega arith) now in
        let (rest, left, later, reports) = others (dump ++ own) in
        let taken : (length c.cset == 0) ≡ false = ground (arith, now.codes) in
        (
          own ++ rest,
          printed c ∷ left,
          rw (taken, wrote, later, append_assoc) refl,
          rw some_there (own, rest, refl, report, now, reports),
        )
  ]

  stats_measured-Shows :
      (svec : List Sched) (cs : List PapillCounter) (dump : List Line)
      → AllKept P warmup svec cs
      → Shows svec cs dump
  unfolding stats_measured
  stats_measured-Shows [] [] dump kept = ([], [], rw append-nil refl, refl)
  stats_measured-Shows [] (c ∷ cs) dump kept = elim kept [ ]
  stats_measured-Shows (e ∷ svec) [] dump kept = elim kept [ ]
  stats_measured-Shows (e ∷ svec) (c ∷ cs) dump (now, kept) =
      Shows-next e svec c cs dump now (λ dump'. stats_measured-Shows svec cs dump' kept)

module _ (P : Papi) (works : Works P) (cnt_vec : List String) (known : Known works cnt_vec)
    (room : length cnt_vec ≤ suc works.counters) where
  -- An entry without events, before others.
  idle : {A : Type 0} → A → Unit {0} × (0 ≤ suc works.counters) × A
  idle rest = (tt, omega arith, rest)

  last : Known works cnt_vec × (length cnt_vec ≤ suc works.counters) × Unit {0}
  last = (known, room, tt)

  pub test_schedule-Runnable :
      (t : MesiType) (a b c : ℕ) → Runnable P works (test_schedule t a b c cnt_vec)
  unfolding test_schedule init_state
  test_schedule-Runnable producer_consumer a b c = (known, room, last)
  test_schedule-Runnable store_on_modified a b c = idle (idle (idle (idle last)))
  test_schedule-Runnable store_on_exclusive a b c = idle (idle (idle (idle (idle (idle last)))))
  test_schedule-Runnable store_on_shared_or_forward a b c =
      idle (idle (idle (idle (idle (idle last)))))
  test_schedule-Runnable store_on_invalid a b c = idle (idle (idle (idle (idle last))))
  test_schedule-Runnable load_from_modified a b c = idle (idle (idle (idle last)))
  test_schedule-Runnable load_from_exclusive a b c = idle (idle (idle (idle (idle (idle last)))))
  test_schedule-Runnable load_from_shared_or_forward a b c =
      idle (idle (idle (idle (idle (idle last)))))
  test_schedule-Runnable load_from_invalid a b c = idle (idle (idle (idle (idle last))))
  test_schedule-Runnable flush a b c = idle (idle (idle (idle tt)))

-- The entries of a test that have events.
abbrev pub stats_of : Cores → List String → MesiType → CorePlacement → List Sched
stats_of k cnt_vec t c = measured_only (schedule k t c cnt_vec)

module _ (P : Papi) (works : Works P) (walk : Body → P.World → P.World)
    (walk_keeps : (b : Body) (w : P.World) → works.phase (walk b w) ≡ works.phase w)
    (cnt_vec : List String) (known : Known works cnt_vec)
    (room : length cnt_vec ≤ suc works.counters) (k : Cores) where
  -- The same, where the workers end in an order that names each of them once.
  pub run_test-Shows :
      (log : List ℕ) (size : ℕ) (t : MesiType) (c : CorePlacement) (dump : List Line) (w : P.World)
      → is_producer_consumer t ≡ false
      → ((i : ℕ) → has i log ≡ ltb i (length (schedule k t c cnt_vec)))
      → Distinct log
      → works.phase w ≡ outside
      → (lines : List Line) × (g : Gathered P) × (cs : List PapillCounter) × (run_test P walk k log
            size t c cnt_vec dump w
          ≡ some ((dump ++ header size t c k) ++ lines, g))
        × AllDone P (round_of P walk) 0 (schedule k t c cnt_vec) cs
        × AllUnprinted cs
        × Reports P 0 (stats_of k cnt_vec t c) (counters_of (schedule k t c cnt_vec) cs) lines
        × (works.phase g.world ≡ outside)
  unfolding run_test counters_with_priority_schedule
  run_test-Shows log size t c dump w other all apart at_outside =
      let vec = schedule k t c cnt_vec in
      let fits =
        test_schedule-Runnable P works cnt_vec known room t k.core_src (core_b k c) (core_c k c) in
      let (cs, w', g, made, returned, done, still_outside) =
        gathered-AllDone P works (body P walk) (round_of P walk)
          (body-Benchmark P works walk walk_keeps) vec fits 0 log w all apart at_outside in
      let (lines, left, printed_now, reports) =
        stats_measured-Shows P g.world 0 vec g.counters (dump ++ header size t c k)
          (AllDone-Kept P (round_of P walk) 0 vec g.counters done) in
      (
        lines,
        record g { counters = left },
        g.counters,
        rw (other, made, returned, printed_now) refl,
        done,
        AllDone-AllUnprinted P (round_of P walk) 0 vec g.counters done,
        reports,
        still_outside,
      )

  -- A test that is not of a producer and a consumer returns, once the threads of its schedule have
  -- ended. Each counter is what the run of its entry has left: its counts are those that PAPI's stop
  -- gives, behind its start and the body, and its times are the clock's. The test adds to dump.dat
  -- its header and the reports of the entries that have events, in order: each has the names of the
  -- events beside the counts of that entry's counter, and the average of its times, on counters not
  -- printed before. This holds where the calls of PAPI keep to its order, the number of events does
  -- not exceed the counters of the machine, and the machine knows the events and can count them
  -- together.
  pub run_test-Reports :
      {entry : Bool} {s : System} (size : ℕ) (t : MesiType) (c : CorePlacement) (dump : List Line)
      (w : P.World)
      → is_producer_consumer t ≡ false
      → Reach (length (schedule k t c cnt_vec)) entry s
      → s.turn ≡ ended
      → works.phase w ≡ outside
      → (lines : List Line) × (g : Gathered P) × (cs : List PapillCounter) × (run_test P walk k
            s.log size t c cnt_vec dump w
          ≡ some ((dump ++ header size t c k) ++ lines, g))
        × AllDone P (round_of P walk) 0 (schedule k t c cnt_vec) cs
        × AllUnprinted cs
        × Reports P 0 (stats_of k cnt_vec t c) (counters_of (schedule k t c cnt_vec) cs) lines
  run_test-Reports {s} size t c dump w other reach at_end at_outside =
      let (all, apart) = in_order_complete reach at_end in
      let (lines, g, cs, returned, done, unprinted, reports, still_outside) =
        run_test-Shows s.log size t c dump w other all apart at_outside in
      (lines, g, cs, returned, done, unprinted, reports)
