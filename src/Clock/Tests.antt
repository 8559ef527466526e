-- ===== src/Clock/Tests.antt =====
-- A machine whose counter wraps round while the thread sleeps.
use microrev.Common.{ℕ, ◌+◌, ◌-◌, ◌%◌, ◌^◌, ◌≡◌, refl, arith}
use microrev.Clock.{Cpu, rdtsc, readings, spawn_run_join}
use microrev.Clock.Laws.{Ticking, Exact, spawn_run_join-Exact}

abbrev cpu : Cpu
cpu = record { World = ℕ; lfence = λ t. t + 10; tsc = λ t. (t % 2 ^ 64, t + 30) }

abbrev ticking : Ticking cpu
ticking = record {
  ticks = λ t. t;
  reads = λ t. refl;
  tsc_on = λ t. omega arith;
  lfence_on = λ t. omega arith;
}

abbrev sleep : ℕ → ℕ
sleep t = t + 3000000000

wraps : spawn_run_join cpu sleep (2 ^ 64 - 100) ≡ (3000000050, 2 ^ 64 + 3000000000)
unfolding spawn_run_join readings rdtsc
wraps = refl

spawn_run_join-Exact_example : Exact cpu ticking 3000000000 sleep 18446744073709551516
unfolding spawn_run_join readings rdtsc
spawn_run_join-Exact_example =
    spawn_run_join-Exact cpu ticking 3000000000 sleep 18446744073709551516 (λ v. omega arith)
      (omega arith)
