-- ===== src/Sweep/Tests.antt =====
-- Both programs on a machine whose calls of PAPI all return.
use microrev.Common.{true, ℕ, ◌≡◌, refl, arith, List, [], ◌++◌, length}
use microrev.Bench.{Cores}
use microrev.Counter.Machine.{Machine, advance}
use microrev.Dump.{schedule}
use microrev.Priority.Inv.{down_from}
use microrev.Setup.{Shared}
use microrev.Shuffle.Order.{has}
use microrev.Sweep.SetUps.{set_up_sizes, BothReady, programs-BothReady}
use microrev.Sweep.{Test, for_each}
use microrev.Sweep.Programs.{protocols, pr_co}

abbrev cores : Cores
cores = record {
  core_src = 0;
  core_socket0 = 4;
  core_socket1 = 8;
  core_global0 = 16;
  core_global1 = 20;
}

-- The workers of each test end in the order of its schedule.
abbrev in_turn : ℕ → Test → List ℕ
in_turn i t = down_from (length (schedule cores t.kind t.placement t.events))

abbrev prepare : ℕ → Machine → Machine
prepare size w = advance w

-- The first block of protocols.cpp.
first_size : has 64 (set_up_sizes (protocols ++ pr_co)) ≡ true
unfolding protocols for_each
first_size = refl

abbrev blank : Shared
blank = record {
  shared_data = 0;
  shared_iter = 0;
  wrflag = [];
  shared_data_size = 64;
  cache_line_size = 64;
  memory = λ a. 0;
}

programs-BothReady_example : BothReady (λ round bound. bound) (λ k b. omega arith) 4096 64 blank 1
programs-BothReady_example =
    programs-BothReady (λ round bound. bound) (λ k b. omega arith) 4096 64 blank first_size
