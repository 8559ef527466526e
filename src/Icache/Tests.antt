-- ===== src/Icache/Tests.antt =====
-- The program on a machine whose calls of PAPI all return.
use microrev.Icache.{events}
use microrev.Common.{ℕ, ◌+◌, ◌*◌, ◌≡◌, refl, some, List, [], ◌∷◌}
use microrev.Counter.{Run}
use microrev.Counter.Laws.{outside}
use microrev.Counter.Machine.{in_table, Machine, machine, lawful, idle_machine}
use microrev.Counter.Output.{Line}
use microrev.Icache.{linear}
use microrev.Icache.Laws.{Printed, linear-Printed}

-- A copy takes three cycles.
abbrev execute : ℕ → Machine → Machine
execute n w = record w { clock = w.clock + 3 * n }

linear-Printed_example :
    (begun : Run machine) × (out : List Line) × (w' : Machine) × (linear machine execute
        idle_machine
      ≡ some (out, w'))
    × Printed machine execute
        (1021 * 4 ∷ 1021 * 8 ∷ 1021 * 16 ∷ 1021 * 32 ∷ 1021 * 64 ∷ [])
        begun
        out
    × (lawful.phase w' ≡ outside)
linear-Printed_example =
    linear-Printed machine lawful execute (λ n w. refl) idle_machine
      (in_table events ((λ w. (refl, refl)), tt)) refl
