-- ===== src/Config/Tests.antt =====
-- The configuration of benchmarks/src/flush.cpp, in a file whose lines are numbers.
use microrev.Common.{◌≡◌, refl, Option, none, some, List, [], ◌∷◌, ◌++◌, arith}
use microrev.Common.Int.{ℤ, pos}
use microrev.Config.{init_arch_cfg, parse_cfg}
use microrev.Config.Laws.{parse_cfg-to_lines}

abbrev number_of : Option ℤ → Option ℤ
number_of line = line

abbrev printed : ℤ → Option ℤ
printed n = some n

abbrev lines : List (Option ℤ)
lines =
    some (pos 1024)
    ∷ some (pos 32768)
    ∷ some (pos 64)
    ∷ some (pos 2)
    ∷ some (pos 4)
    ∷ some (pos 6)
    ∷ some (pos 7)
    ∷ some (pos 9)
    ∷ []

parse_cfg-to_lines_example :
    parse_cfg none number_of number_of number_of (some (lines ++ none ∷ []))
    ≡ some (init_arch_cfg (pos 2) (pos 4) (pos 6) (pos 7) (pos 9) 32768 64 1024)
parse_cfg-to_lines_example =
    parse_cfg-to_lines none number_of number_of number_of printed (λ n h. refl) (λ n h. refl) 1024
      32768 64 2 4 6 7 9 (none ∷ []) (omega arith) (omega arith) (omega arith)
      (omega arith, omega arith, omega arith, omega arith, omega arith)
