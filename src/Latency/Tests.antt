-- ===== src/Latency/Tests.antt =====
-- The whole program on a clock that advances evenly.
use microrev.Common.{ℕ, refl, ◌/◌, ◌≡◌, ◌*◌, ◌%◌, some}
use microrev.Chain.{Memory}
use microrev.Common.Int.{pos, ◌+ℤ◌, ◌-ℤ◌}
use microrev.Latency.Program.{Timespec, access_time, rd_latency}
use microrev.Latency.Program.Laws.{readings, rd_latency-readings}

abbrev blank : Memory
blank a = 0

-- Every array is at the same place, and each reading of the clock is 0.4 s after the one before.
abbrev ticks : ℕ → Timespec
ticks k = record { tv_sec = k * 4 / 10; tv_nsec = k * 4 % 10 * 100000000 }

rd_latency-readings_example :
    rd_latency (λ k. 4096) ticks 10000000 blank ≡ some (readings (λ k. 4096) ticks 10000000 19 0 8)
rd_latency-readings_example = rd_latency-readings (λ k. 4096) ticks 10000000 blank

-- From 1.2 s to 1.6 s, and from 1.6 s to 2 s: the nanoseconds wrap.
within : access_time (ticks 3) (ticks 4) ≡ pos 400000000
unfolding access_time ◌+ℤ◌ ◌-ℤ◌
within = refl

across : access_time (ticks 4) (ticks 5) ≡ pos 400000000
unfolding access_time ◌+ℤ◌ ◌-ℤ◌
across = refl
