-- ===== src/Cache/Tests.antt =====
-- An array of 70 bytes, loaded from in strides of 32, and the program on a machine whose calls of PAPI
-- all return.
use microrev.Cache.{dcache_events}
use microrev.Common.{ℕ, ◌≡◌, refl, arith, some, List, [], ◌∷◌, ◌++◌, map, length}
use microrev.Shuffle.{candidates_from}
use microrev.Shuffle.Cycle.{Closes}
use microrev.Chain.{Memory}
use microrev.Counter.{PapillCounter}
use microrev.Counter.Machine.{in_table, Machine, machine, lawful, idle_machine, advance}
use microrev.Counter.Output.{Line, test_run, printed}
use microrev.Gather.Reports.{Reports}
use microrev.Threads.Runs.{three_threads}
use microrev.Cache.{WorkingSet, loads, three_cores, pointers, cache}
use microrev.Cache.Loads.{letters_again, loads-letters}
use microrev.Gather.Runs.{AllDone}
use microrev.Cache.Reports.{counted_walk, working_set_timing, AllClocked, cache-Reports}

abbrev blank : Memory
blank a = 0

loads-letters_example : loads 4096 70 32 2 blank ≡ some (letters_again 4096 32 3 2)
loads-letters_example =
    loads-letters 4096 70 32 (omega arith) (omega arith) 3 2 blank (omega arith) (omega arith)

two_rounds :
    letters_again 4096 32 3 2
    ≡ (4096, 64) ∷ (4128, 69) ∷ (4160, 65) ∷ (4096, 64) ∷ (4128, 69) ∷ (4160, 65) ∷ []
two_rounds = refl

abbrev tick : WorkingSet → Machine → Machine
tick t w = advance w

abbrev latest : ℕ → ℕ → ℕ
latest round bound = bound

cache-Reports_example :
    (a : List ℕ) × (cs : List PapillCounter) × (lines : List Line) × (w' : Machine) × (cache machine
        tick tick latest three_threads.last.log
        (test_run ∷ [])
        idle_machine
      ≡ some (a, (test_run ∷ []) ++ lines, record { counters = map printed cs; world = w' }))
    × Closes pointers pointers 0 (candidates_from 1 4) (some a)
    × AllDone machine (counted_walk machine tick tick) 5 three_cores cs
    × Reports machine 5 three_cores cs lines
    × AllClocked cs
    × (length cs ≡ 3)
cache-Reports_example =
    cache-Reports machine lawful tick tick (λ t w. refl) (λ t w. refl) latest
      (λ round bound. omega arith)
      (in_table dcache_events ((λ w. (refl, refl)), ((λ w. (refl, refl)), tt))) (omega arith)
      (test_run ∷ []) idle_machine three_threads.reach refl refl
