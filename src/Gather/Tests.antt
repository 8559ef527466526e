-- ===== src/Gather/Tests.antt =====
-- Two threads of `counters_with_schedule` that end in the reverse order, on a machine whose calls of
-- PAPI all return.
use microrev.Common.{List, [], ◌∷◌}
use microrev.Bench.{reader, writer, Sched}
use microrev.Counter.Machine.{Machine}
use microrev.Gather.Laws.{body_timing}
use microrev.Gather.Reports.{Reports}

abbrev two_entries : List Sched
two_entries =
    record { core_id = 0; benchmark = reader; events = "PAPI_L1_DCM" ∷ []; label = "load" }
    ∷ record { core_id = 4; benchmark = writer; events = "PAPI_L2_DCM" ∷ []; label = "store" }
    ∷ []
