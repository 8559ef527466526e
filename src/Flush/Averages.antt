-- ===== src/Flush/Averages.antt =====
-- Each line of flush.cpp is the average of 200 times, of runs of one test.
use mathlib.Core.List.{append_assoc, append-nil}
use microrev.Common.{
  ℕ, zero, suc, ◌+◌, ◌≤◌, ◌<◌, ◌≡◌, refl, ap, ◌∙◌, arith, true, false, some, List, [], ◌∷◌, ◌++◌,
  length, map, ltb, lt→ltb, le→ltb_false, get_elem?, inl, inr,
}
use microrev.Shuffle.Order.{has, Distinct}
use microrev.Average.{avg_no_overflow, to_u64}
use microrev.Bench.{Body, Sched, measured_only, init_state}
use microrev.Counter.{Papi, PapillCounter}
use microrev.Common.Int.{ℤ}
use microrev.Dump.Laws.{counters_of}
use microrev.Counter.Thread.{kept_in_all}
use Prim.Native.String.{String}
use microrev.Counter.Laws.{outside, Works, Known}
use microrev.Gather.{body, counters_with_priority_schedule}
use microrev.Gather.Laws.{body_timing, body-Benchmark, round_of, times_of, Runnable}
use microrev.Gather.Runs.{AllDone, gathered-AllDone}
use microrev.Gather.Reports.{is_nil-cases}
use microrev.Flush.{flusher_test, read_from_invalid_test, push_results}
use microrev.Flush.Program.{
  counters, shared_sizes, cores, Average, run_schedule, run_times, sizes_loop, two_sweeps,
  flush_sweeps,
}

-- The body of an entry with events keeps a time.
abbrev Timed : List Sched → Type 0
Timed [] = Unit
Timed (e ∷ svec) = (0 < length e.events → times_of e.benchmark ≡ 1) × Timed svec

single_of_length : {A : Type 0} (xs : List A) → length xs ≡ 1 → (x : A) × (xs ≡ x ∷ [])
single_of_length [] one = absurd (omega arith)
single_of_length (x ∷ []) one = (x, refl)
single_of_length (x ∷ y ∷ xs) one = absurd (omega arith)

-- Without warm-up rounds only the times of the one run are kept.
kept_in_one : (times : ℕ) (events : List String) → kept_in_all times events 0 ≡ times
kept_in_one times [] = omega arith
kept_in_one times (e ∷ events) = omega arith

module _ (P : Papi) (walk : Body → P.World → P.World) where
  push_results-measured :
      (svec : List Sched) (cs : List PapillCounter) (results : List ℕ)
      → Timed svec
      → AllDone P (round_of P walk) 0 svec cs
      → (times : List ℤ) × (push_results cs results ≡ some (results ++ map to_u64 times))
        × (map (λ c. c.vec_cycles_measured) (counters_of svec cs) ≡ map (λ t. t ∷ []) times)
        × (length times ≡ length (measured_only svec))
  unfolding push_results
  push_results-measured [] [] results timed done = ([], rw append-nil refl, refl, refl)
  push_results-measured [] (c ∷ cs) results timed done = elim done [ ]
  push_results-measured (e ∷ svec) [] results timed done = elim done [ ]
  push_results-measured (e ∷ svec) (c ∷ cs) results (timed, others) ((done, worked), rest) =
      elim (is_nil-cases e.events) [
        | inl (none_there, empty) ↦
            let (times, returned, same, count) =
              push_results-measured svec cs results others rest in
            let no_event : ltb 0 (length c.cset) ≡ false =
              le→ltb_false 0 (length c.cset) (omega (arith, done.codes)) in
            (times, rw (no_event, push_results) returned, rw none_there same, rw none_there count)
        | inr (some_there, filled) ↦
            let some_event : ltb 0 (length c.cset) ≡ true =
              lt→ltb 0 (length c.cset) (omega (arith, done.codes)) in
            let (cycles, only) =
              single_of_length c.vec_cycles_measured
                (done.times ∙ kept_in_one (times_of e.benchmark) e.events ∙ timed filled) in
            let (times, returned, same, count) =
              push_results-measured svec cs (results ++ to_u64 cycles ∷ []) others rest in
            let first : get_elem? c.vec_cycles_measured 0 ≡ some cycles =
              ap (λ (ts : List ℤ). get_elem? ts 0) only in
            (
              cycles ∷ times,
              rw (some_event, push_results, first)
                  (returned
                    ∙ ap some (append_assoc results (to_u64 cycles ∷ []) (map to_u64 times))),
              rw some_there (λ i. only i ∷ same i),
              rw some_there (ap suc count),
            )
      ]

  -- The time of a test with this schedule: the only one that the counter with events has kept.
  abbrev pub OneTime : List Sched → ℕ → Type 0
  OneTime vec time =
      (cs : List PapillCounter) × (cycles : ℤ) × AllDone P (round_of P walk) 0 vec cs
      × (map (λ c. c.vec_cycles_measured) (counters_of vec cs) ≡ (cycles ∷ []) ∷ [])
      × (time ≡ to_u64 cycles)

  abbrev pub AllTimes : List Sched → ℕ → List ℕ → Type 0
  AllTimes vec zero times = times ≡ []
  AllTimes vec (suc n) times =
      (time : ℕ) × (rest : List ℕ) × (times ≡ time ∷ rest) × OneTime vec time × AllTimes vec n rest

  -- A line for each size, with the average of the times of 200 tests with this schedule.
  abbrev pub Averages : (ℤ → ℕ → ℤ) → List Sched → List ℕ → List Average → Type 0
  Averages quotient vec [] out = out ≡ []
  Averages quotient vec (size ∷ sizes) out =
      (times : List ℕ) × (rest : List Average) × (out
        ≡ record { size = size; average = avg_no_overflow quotient times } ∷ rest)
      × AllTimes vec 200 times
      × Averages quotient vec sizes rest

module _ (P : Papi) (works : Works P) (walk : Body → P.World → P.World)
    (walk_keeps : (b : Body) (w : P.World) → works.phase (walk b w) ≡ works.phase w)
    (prepare : ℕ → P.World → P.World)
    (prepare_keeps : (size : ℕ) (w : P.World) → works.phase (prepare size w) ≡ works.phase w)
    (order : ℕ → ℕ → List ℕ) (quotient : ℤ → ℕ → ℤ)
    (complete : (i n : ℕ) → ((j : ℕ) → has j (order i n) ≡ ltb j n) × Distinct (order i n)) where
  module _ (vec : List Sched) (fits : Runnable P works vec) (timed : Timed vec)
      (one : length (measured_only vec) ≡ 1) where
    run_schedule-one :
        (i : ℕ) (results : List ℕ) (w : P.World)
        → works.phase w ≡ outside
        → (time : ℕ) × (w' : P.World) × (run_schedule P walk prepare order quotient i vec results w
            ≡ some (results ++ time ∷ [], w'))
          × OneTime P walk vec time
          × (works.phase w' ≡ outside)
    unfolding run_schedule counters_with_priority_schedule
    run_schedule-one i results w at =
        let (all, apart) = complete i (length vec) in
        let (cs, w1, g, made, returned, done, still) =
          gathered-AllDone P works (body P walk) (round_of P walk)
            (body-Benchmark P works walk walk_keeps) vec fits 0 (order i (length vec)) w all apart
            at in
        let (times, kept, same, count) =
          push_results-measured P walk vec g.counters results timed done in
        let (cycles, only) = single_of_length times (count ∙ one) in
        let pushed : push_results g.counters results ≡ some (results ++ to_u64 cycles ∷ []) =
          kept ∙ ap (λ (ts : List ℤ). some (results ++ map to_u64 ts)) only in
        (
          to_u64 cycles,
          g.world,
          rw (made, returned, pushed) refl,
          (g.counters, cycles, done, same ∙ ap (map (λ t. t ∷ [])) only, refl),
          still,
        )

    run_times-AllTimes :
        (i n : ℕ) (results : List ℕ) (w : P.World)
        → works.phase w ≡ outside
        → (times : List ℕ) × (w' : P.World) × (run_times P walk prepare order quotient i n vec
              results w
            ≡ some (results ++ times, w'))
          × AllTimes P walk vec n times
          × (works.phase w' ≡ outside)
    unfolding run_times
    run_times-AllTimes i zero results w at = ([], w, rw append-nil refl, refl, at)
    run_times-AllTimes i (suc n) results w at =
        let (now, w1, once, single, still) = run_schedule-one i results w at in
        let (rest, w2, later, others, end) =
          run_times-AllTimes (suc i) n (results ++ now ∷ []) w1 still in
        (
          now ∷ rest,
          w2,
          rw (once, later, append_assoc results (now ∷ []) rest) refl,
          (now, rest, refl, single, others),
          end,
        )

    sizes_loop-Averages :
        (i : ℕ) (sizes : List ℕ) (out : List Average) (w : P.World)
        → works.phase w ≡ outside
        → (lines : List Average) × (w' : P.World) × (sizes_loop P walk prepare order quotient i vec
              sizes out w
            ≡ some (out ++ lines, w'))
          × Averages P walk quotient vec sizes lines
          × (works.phase w' ≡ outside)
    unfolding sizes_loop
    sizes_loop-Averages i [] out w at = ([], w, rw append-nil refl, refl, at)
    sizes_loop-Averages i (size ∷ sizes) out w at =
        let (times, w1, once, count, still) =
          run_times-AllTimes i 200 [] (prepare size w) (prepare_keeps size w ∙ at) in
        let line : Average = record { size = size; average = avg_no_overflow quotient times } in
        let (rest, w2, later, averages, end) =
          sizes_loop-Averages (i + 200) sizes (out ++ line ∷ []) w1 still in
        (
          line ∷ rest,
          w2,
          rw (once, later, append_assoc out (line ∷ []) rest) refl,
          (times, rest, refl, count, averages),
          end,
        )

  -- A schedule that fits, and measures one entry.
  abbrev Single : List Sched → Type 0
  Single vec = Runnable P works vec × Timed vec × (length (measured_only vec) ≡ 1)

  two_sweeps-Averages :
      (first second : List Sched) (sizes : List ℕ) (w : P.World)
      → Single first
      → Single second
      → works.phase w ≡ outside
      → (out : List Average) × (more : List Average) × (w' : P.World) × (two_sweeps P walk prepare
            order quotient first second sizes w
          ≡ some (out ++ more, w'))
        × Averages P walk quotient first sizes out
        × Averages P walk quotient second sizes more
  unfolding two_sweeps
  two_sweeps-Averages first second sizes w (fits, timed, one) (fits', timed', one') at =
      let (out, w1, returned, averages, still) =
        sizes_loop-Averages first fits timed one 0 sizes [] w at in
      let (more, w2, returned', averages', end) =
        sizes_loop-Averages second fits' timed' one' 2400 sizes out w1 still in
      (out, more, w2, rw (returned, returned') refl, averages, averages')

  -- An entry without events, before others: its events fit, and it need not keep a time.
  skip : {A : Type 0} → A → Unit {0} × (0 ≤ suc works.counters) × A
  skip rest = (tt, omega arith, rest)

  never : {A : Type 0} → 0 < 0 → A
  never h = absurd (omega arith)

  -- flush.cpp returns, and prints for each size the average of the times of 200 runs of
  -- read_from_invalid_test, and then for each size that of 200 runs of flusher_test: each time is the
  -- only one that the counter with events has kept, the clock behind the body less the clock before
  -- it, as a uint64_t. This holds where the calls of PAPI keep to its order, the machine knows the two
  -- events and can count them together, it has two counters or more, and each worker of a schedule
  -- ends once.
  pub flush_sweeps-Averages :
      (w : P.World)
      → Known works counters
      → 2 ≤ suc works.counters
      → works.phase w ≡ outside
      → (invalid : List Average) × (flushed : List Average) × (w' : P.World) × (flush_sweeps P walk
            prepare order quotient w
          ≡ some (invalid ++ flushed, w'))
        × Averages P walk quotient (read_from_invalid_test cores counters) shared_sizes invalid
        × Averages P walk quotient (flusher_test cores counters) shared_sizes flushed
  unfolding flush_sweeps flusher_test read_from_invalid_test init_state
  flush_sweeps-Averages w known room at =
      two_sweeps-Averages (read_from_invalid_test cores counters) (flusher_test cores counters)
        shared_sizes w (skip (skip (known, room, tt)), (never, (never, ((λ h. refl), tt))), refl)
        (
          skip (skip (skip (skip (skip (skip (skip (known, room, tt))))))),
          (never, (never, (never, (never, (never, (never, (never, ((λ h. refl), tt)))))))),
          refl,
        )
        at
