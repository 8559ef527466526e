-- ===== src/Dump/Tests.antt =====
-- Tests of a load and of a producer and a consumer, on a machine whose calls of PAPI all return.
use microrev.Gather.Laws.{body_timing, round_of}
use microrev.Common.{true, ◌≡◌, refl, arith, some, List, [], ◌∷◌, ◌++◌, map}
use microrev.Bench.{
  producer_consumer, load_from_shared_or_forward, global, socket, Cores, init_state, test_schedule,
}
use microrev.Counter.{PapillCounter}
use microrev.Counter.Machine.{in_table, machine, lawful, idle_machine, advance}
use microrev.Counter.Output.{Line, printed}
use microrev.Gather.{Gathered}
use microrev.Gather.Runs.{AllDone}
use microrev.Gather.Reports.{Reports}
use microrev.Dump.{header, schedule, run_test}
use microrev.Dump.Laws.{AllUnprinted, counters_of, run_test-Reports, stats_of}
use microrev.Dump.Twice.{run_test-prints_twice}
use microrev.Priority.Runs.{last, last-Reach}
use microrev.Threads.Runs.{two_threads}
use Prim.Native.String.{String}

abbrev cores : Cores
cores = record {
  core_src = 0;
  core_socket0 = 4;
  core_socket1 = 8;
  core_global0 = 16;
  core_global1 = 20;
}

abbrev events : List String
events = "PAPI_L1_DCM" ∷ "PAPI_L2_DCM" ∷ []

run_test-Reports_example :
    (lines : List Line) × (g : Gathered machine) × (cs : List PapillCounter) × (run_test machine
        (λ b. advance)
        cores
        (last 7).log
        4096
        load_from_shared_or_forward
        global
        events
        []
        idle_machine
      ≡ some (([] ++ header 4096 load_from_shared_or_forward global cores) ++ lines, g))
    × AllDone machine
        (round_of machine (λ b. advance))
        0
        (schedule cores load_from_shared_or_forward global events)
        cs
    × AllUnprinted cs
    × Reports machine 0
        (stats_of cores events load_from_shared_or_forward global)
        (counters_of (schedule cores load_from_shared_or_forward global events) cs)
        lines
unfolding test_schedule init_state
run_test-Reports_example =
    run_test-Reports machine lawful (λ b. advance) (λ b w. refl) events
      (in_table events ((λ w. (refl, refl)), ((λ w. (refl, refl)), tt))) (omega arith) cores 4096
      load_from_shared_or_forward global [] idle_machine refl (last-Reach 6 true) refl refl

run_test-prints_twice_example :
    (lines : List Line) × (again : List Line) × (g : Gathered machine) × (cs : List PapillCounter)
    × (run_test machine
          (λ b. advance)
          cores
          two_threads.last.log
          4096
          producer_consumer
          socket
          events
          []
          idle_machine
        ≡ some (([] ++ header 4096 producer_consumer socket cores) ++ (lines ++ again), g))
    × AllDone machine
        (round_of machine (λ b. advance))
        0
        (schedule cores producer_consumer socket events)
        cs
    × Reports machine 0 (schedule cores producer_consumer socket events) cs lines
    × Reports machine 0 (schedule cores producer_consumer socket events) (map printed cs) again
run_test-prints_twice_example =
    run_test-prints_twice machine lawful (λ b. advance) (λ b w. refl) events
      (in_table events ((λ w. (refl, refl)), ((λ w. (refl, refl)), tt))) (omega arith) (omega arith)
      cores 4096 socket [] idle_machine two_threads.reach refl refl
