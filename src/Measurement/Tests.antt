-- ===== src/Measurement/Tests.antt =====
-- A cache of 1 MB, on a machine whose calls of PAPI all return.
use microrev.Measurement.{accesses, misses, second_level}
use microrev.Constants.{mb4}
use microrev.Common.{ℕ, zero, suc, ◌/◌, ◌≡◌, refl, arith, some, List, [], ◌++◌}
use microrev.Counter.Machine.{in_table, Machine, machine, lawful, idle_machine, advance}
use microrev.Counter.Output.{Line}
use microrev.Priority.Inv.{down_from}
use microrev.Priority.Safety.{has-down_from, down_from-Distinct}
use microrev.Measurement.{main_sweep}
use microrev.Measurement.Laws.{Swept, main_sweep-Swept}
use Prim.Native.String.{String}

-- Strokes in place of digits.
abbrev strokes : ℕ → String
strokes zero = ""
strokes (suc n) = String.◌∷◌ "I" (strokes n)

main_sweep-Swept_example :
    (lines : List Line) × (w' : Machine) × (main_sweep machine
        (λ b. advance)
        (λ size. advance)
        strokes
        (λ n. down_from 3)
        1048576
        []
        idle_machine
      ≡ some ([] ++ lines, w'))
    × Swept machine (λ b. advance) strokes (mb4 / 1048576) lines
main_sweep-Swept_example =
    main_sweep-Swept machine lawful (λ b. advance) (λ b w. refl) (λ size. advance) (λ size w. refl)
      strokes (in_table accesses ((λ w. (refl, refl)), ((λ w. (refl, refl)), tt)))
      (in_table misses ((λ w. (refl, refl)), ((λ w. (refl, refl)), ((λ w. (refl, refl)), tt))))
      (in_table second_level ((λ w. (refl, refl)), ((λ w. (refl, refl)), tt))) (omega arith)
      (λ n. down_from 3) (λ n. (has-down_from 3, down_from-Distinct 3)) 1048576 [] idle_machine
      (omega arith) refl
