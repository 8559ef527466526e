-- ===== src/Counter/Tests.antt =====
-- A worker on a machine whose calls of PAPI all return.
use microrev.Common.{refl, arith, List, [], ◌∷◌}
use microrev.Counter.{Double, Run, timed, counter_thread_fn}
use microrev.Counter.Machine.{in_table, machine, lawful, idle_machine, advance}
use microrev.Counter.Rounds.{Worked, Frame, clocked_around}
use microrev.Counter.Steps.{Returns}
use microrev.Counter.Thread.{Measured, counter_thread_fn-Measured}
use Prim.Native.String.{String}

abbrev events : List String
events = "PAPI_L1_DCM" ∷ "PAPI_L2_DCM" ∷ []

abbrev unused : Run machine
unused = record {
  counter = record {
    measured = [];
    cset = [];
    vec_cycles_measured = [];
    core_id = 0;
    event_set = 0;
    max_hw_cntrs = 4;
    label = "";
    cycles_measured = Double.nought;
  };
  world = idle_machine;
}

counter_thread_fn-Measured_example :
    Returns (counter_thread_fn events 3 (timed advance) 5 unused) (λ s'.
      Measured lawful events 3 1 s'
      × Worked (Frame {P = machine} (clocked_around machine advance)) events 5 s'.counter)
counter_thread_fn-Measured_example =
    counter_thread_fn-Measured lawful advance (λ w. refl) events 3 5 unused
      (in_table events ((λ w. (refl, refl)), ((λ w. (refl, refl)), tt)))
      (record { phase = refl; cset = refl; cycles = refl; measured = refl }) (omega arith)
