-- ===== src/Threads/Tests.antt =====
-- Runs of one and two threads, and the theorems at them.
use microrev.Common.{Inevitable, true, ℕ, ◌≡◌, ◌≢◌, refl, arith, ltb}
use microrev.Shuffle.Order.{has, Distinct}
use microrev.Threads.{
  absent, ended, lock, sleep, pass, measure, unlock, relock, moves, notifies_none, spawn, pin,
  spawned, take, open_gate, broadcast, join, finish, start, later,
}
use microrev.Threads.Runs.{Run, second_runs}
use microrev.Threads.Safety.{Next, benchmarks_alone, starts_together, measured_once, ends}

-- One thread, from its creation to the end of the schedule.
abbrev whole_run : Run 1
whole_run = record {
  last = _;
  reach =
      later
        (later
          (later
            (later
              (later
                (later
                  (later
                    (later
                      (later
                        (later
                          (later
                            (later (later (later start (spawn 0 (omega arith) refl)) (pin 0 refl))
                              (moves 0 (omega arith) refl (lock refl)))
                            (moves 0 (omega arith) refl (sleep refl)))
                          (spawned refl))
                        (take refl refl))
                      (open_gate refl))
                    (broadcast refl))
                  (moves 0 (omega arith) refl (relock refl)))
                (moves 0 (omega arith) refl (pass refl)))
              (moves 0 (omega arith) refl measure))
            (moves 0 (omega arith) refl unlock))
          (notifies_none 0 (omega arith) refl))
        (join 0 (omega arith) refl refl);
}

abbrev ended_run : Run 1
ended_run = record { last = _; reach = later whole_run.reach (finish refl) }

benchmarks_alone_example : ◌≡◌ {A = ℕ} 1 1
benchmarks_alone_example = benchmarks_alone second_runs.reach 1 1 refl refl

starts_together_example : (second_runs.last.place 0 ≢ absent) × (second_runs.last.pinned 0 ≡ true)
starts_together_example = starts_together second_runs.reach 1 refl 0 (omega arith)

measured_once_example : ((i : ℕ) → has i ended_run.last.log ≡ ltb i 1) × Distinct ended_run.last.log
measured_once_example = measured_once ended_run.reach refl

ends_example : Inevitable (Next 2) (λ t. t.stage ≡ ended) second_runs.last
ends_example = ends second_runs.reach
