-- ===== src/RdLatency/Tests.antt =====
-- An array of 128 KB at address 0, with a block of 128 KB behind it.
use microrev.Common.{◌≡◌, ◌*◌, refl, arith, some, ℕ, inl}
use microrev.Chain.{Memory}
use microrev.RdLatency.{Produced, init_stride}
use microrev.RdLatency.Laws.{TwoRings, init_stride-TwoRings}

abbrev blank : Memory
blank a = 0

abbrev latest : ℕ → ℕ → ℕ
latest round bound = bound

init_stride-TwoRings_example :
    (v : Produced) × (init_stride latest 0 131080 (2048 * 64) 64 blank ≡ some v)
    × TwoRings 0 131080 2047 v
init_stride-TwoRings_example =
    init_stride-TwoRings latest (λ round bound. omega arith) 0 131080 1 2047 blank refl
      (omega arith) (inl (omega arith))
