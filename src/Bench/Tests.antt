-- ===== src/Bench/Tests.antt =====
-- The schedules of `run_test` on concrete cores and events, over MESI caches.
use microrev.Common.{ℕ, ◌≡◌, ◌≢◌, arith, true, false, List, [], ◌∷◌, ◌++◌}
use microrev.Coherence.{nowhere, mesi, mesi-IsCoherent}
use microrev.Bench.{init_state, perform_all, Sched, sched, measured_only, test_schedule}
use microrev.Bench.States.{Reached, ReachedLast, init_state-Reaches}
use microrev.Bench.Scheduled.{
  load, in_shared, body_of, test_of, Settled, SettledLast, test_schedule-Settled,
}
use Prim.Native.String.{String}

abbrev misses : List String
misses = "PAPI_L1_DCM" ∷ []

cores_differ : ◌≢◌ {A = ℕ} 0 4
cores_differ eq = ground (arith, eq)

init_state-Reaches_example :
    Reached mesi mesi-IsCoherent (λ st. init_state [] st 0 4 misses) 0 4 nowhere
    × ReachedLast mesi mesi-IsCoherent (λ st. init_state [] st 0 4 misses) 0 nowhere
init_state-Reaches_example = init_state-Reaches mesi mesi-IsCoherent nowhere 0 4 misses cores_differ

test_schedule-Settled_example :
    (prefix : List Sched) × (test_schedule (test_of load in_shared) 0 4 8 misses
      ≡ prefix ++ sched 8 (body_of load) misses ∷ [])
    × (measured_only prefix ≡ [])
    × Settled mesi in_shared 0 4 (perform_all mesi false prefix nowhere)
    × SettledLast mesi in_shared 0 (perform_all mesi true prefix nowhere)
test_schedule-Settled_example =
    test_schedule-Settled mesi mesi-IsCoherent nowhere 0 4 8 misses load in_shared cores_differ
