-- ===== src/Flush/Tests.antt =====
-- The tests of benchmarks/src/flush.cpp on the cores of its configuration, on a machine whose calls of PAPI all return.
use microrev.Flush.{flusher_test, read_from_invalid_test}
use microrev.Flush.Program.{cores, counters}
use microrev.Common.{ℕ, ◌≡◌, refl, arith, some, List, ◌++◌}
use microrev.Common.Int.{div_ℤ}
use microrev.Counter.Machine.{in_table, Machine, machine, lawful, idle_machine, advance}
use microrev.Priority.Inv.{down_from}
use microrev.Priority.Safety.{has-down_from, down_from-Distinct}
use microrev.Flush.{flusher_test, read_from_invalid_test}
use microrev.Flush.Program.{cores, shared_sizes, Average, flush_sweeps}
use microrev.Flush.Averages.{Averages, flush_sweeps-Averages}

-- The workers of each test end in the order of its schedule.
abbrev in_turn : ℕ → ℕ → List ℕ
in_turn i n = down_from n

flush_sweeps-Averages_example :
    (invalid : List Average) × (flushed : List Average) × (w' : Machine) × (flush_sweeps machine
        (λ b. advance)
        (λ size. advance)
        in_turn
        div_ℤ
        idle_machine
      ≡ some (invalid ++ flushed, w'))
    × Averages machine
        (λ b. advance)
        div_ℤ
        (read_from_invalid_test cores counters)
        shared_sizes
        invalid
    × Averages machine (λ b. advance) div_ℤ (flusher_test cores counters) shared_sizes flushed
flush_sweeps-Averages_example =
    flush_sweeps-Averages machine lawful (λ b. advance) (λ b w. refl) (λ size. advance)
      (λ size w. refl) in_turn div_ℤ (λ i n. (has-down_from n, down_from-Distinct n)) idle_machine
      (in_table counters ((λ w. (refl, refl)), ((λ w. (refl, refl)), tt))) (omega arith) refl
