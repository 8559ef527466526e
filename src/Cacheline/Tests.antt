-- ===== src/Cacheline/Tests.antt =====
-- Four lines of 64 bytes at address 4096, and cacheline.cpp on a machine whose calls of PAPI all return.
use microrev.Counter.{PapillCounter}
use microrev.Counter.Machine.{Machine, machine, lawful, idle_machine, advance}
use microrev.Counter.Output.{Line}
use microrev.Priority.Runs.{last, last-Reach}
use microrev.Gather.Runs.{AllDone}
use microrev.Gather.Reports.{Reports}
use microrev.Cacheline.Main.{LatencyTest, vec, main}
use microrev.Cacheline.Main.Laws.{latency_timing, timed_walk, main-Reports}
use microrev.Common.{true, List, map, length, replicate, some, ℕ, ◌+◌, ◌*◌, ◌%◌, ◌≡◌, refl, arith}
use microrev.Chain.{Memory}
use microrev.Cacheline.{init_stride, chase}
use microrev.Cacheline.Laws.{IsRing, init_stride-IsRing}

abbrev blank_memory : Memory
blank_memory a = 0

init_stride-IsRing_example :
    (built : IsRing 4096 64 4 blank_memory (init_stride 4096 256 64 blank_memory)) × ((accesses : ℕ)
      → chase accesses built.memory (4096 + 4 * 64) ≡ 4096 + (4 + accesses * 100) % 5 * 64)
init_stride-IsRing_example =
    init_stride-IsRing 4096 256 64 4 blank_memory (omega arith) refl (omega arith) (omega arith)

abbrev tick : LatencyTest → Machine → Machine
tick t w = advance w

main-Reports_example :
    (cs : List PapillCounter) × (out : List Line) × (w' : Machine) × (main machine tick tick
        (last 8).log
        idle_machine
      ≡ some (out, w'))
    × AllDone machine (timed_walk machine tick tick) 3 vec cs
    × Reports machine 3 vec cs out
    × (map (λ c. length c.vec_cycles_measured) cs ≡ replicate 8 4)
main-Reports_example =
    main-Reports machine lawful tick tick (λ t w. refl) (λ t w. refl) idle_machine
      (last-Reach 7 true) refl refl
