-- ===== src/Counter/Machine.antt =====
-- A machine whose calls of PAPI all return, with a clock of its own. It shows that the laws of PAPI's
-- order of calls can hold.
use microrev.Common.{
  map, true, List, [], ◌∷◌, ℕ, zero, suc, ◌+◌, ◌≡◌, refl, ap, ◌∙◌, some, length, replicate,
}
use microrev.Common.Int.{ℤ, pos, negsuc}
use Prim.Native.String.{String, compare}
use Prim.Native.Nat.{lt, eq, gt}
use microrev.Counter.{Papi}
use microrev.Counter.Laws.{Phase, outside, inside, holding, counting, Works, Codes, Known}

pub record Machine : Type 0 where
  pub phase : Phase
  pub clock : ℕ

abbrev at : Phase → Machine → Machine
at p w = record w { phase = p }

abbrev started : Phase → Phase
started (holding h n) = counting h n
started p = p

abbrev stopped : Phase → Phase
stopped (counting h n) = holding h n
stopped p = p

abbrev emptied : Phase → Phase
emptied (holding h n) = holding h 0
emptied p = p

abbrev size : Phase → ℕ
size (holding h n) = n
size (counting h n) = n
size p = 0

-- The events that the machine knows.
abbrev event_names : List String
event_names =
    "PAPI_L1_DCM" ∷ "PAPI_L2_DCM" ∷ "PAPI_TOT_INS" ∷ "PAPI_TOT_CYC" ∷ "PAPI_L2_DCH" ∷ "PAPI_L1_ICM"
    ∷ "L1D:REPLACEMENT" ∷ "perf::L1-DCACHE-LOAD-MISSES" ∷ "perf::L1-DCACHE-LOADS"
    ∷ "perf::PERF_COUNT_HW_CACHE_L1D:ACCESS" ∷ "perf::PERF_COUNT_HW_CACHE_L1D:PREFETCH" ∷ []

-- An event's code is its place among them.
abbrev place : String → List String → ℕ → ℕ
place e [] i = i
place e (name ∷ names) i = elim (compare e name) [
  | lt ↦ place e names (suc i)
  | eq ↦ i
  | gt ↦ place e names (suc i)
]

abbrev pub code_of : String → ℤ
code_of e = pos (place e event_names 0)

abbrev name_at : List String → ℕ → String
name_at [] i = ""
name_at (name ∷ names) zero = name
name_at (name ∷ names) (suc i) = name_at names i

abbrev name_of : ℤ → String
name_of (pos i) = name_at event_names i
name_of (negsuc i) = ""

abbrev pub machine : Papi
machine = record {
  World = Machine;
  library_init = λ w. some w;
  num_counters = λ w. 4;
  thread_init = λ w. some w;
  register_thread = λ w. some (at inside w);
  unregister_thread = λ w. some (at outside w);
  create_eventset = λ w. some (1, at (holding 1 0) w);
  event_name_to_code = λ e w. some (code_of e);
  event_code_to_name = λ code w. name_of code;
  add_events = λ h codes w. some (at (holding h (length codes)) w);
  start = λ h w. some (at (started w.phase) w);
  stop = λ h w. some (replicate (size w.phase) (pos 7), at (stopped w.phase) w);
  reset = λ h w. some w;
  cleanup_eventset = λ h w. some (at (emptied w.phase) w);
  destroy_eventset = λ h w. some (at inside w);
  null = 0;
  rdtsc = λ w. (w.clock, record w { clock = w.clock + 30 });
}

abbrev pub length-replicate : (n : ℕ) (v : ℤ) → length (replicate n v) ≡ n
length-replicate zero v = refl
length-replicate (suc n) v = ap suc (length-replicate n v)

abbrev pub lawful : Works machine
lawful = record {
  phase = λ w. w.phase;
  library_init = λ w. (w, refl, refl);
  counters = 3;
  num_counters = λ w. refl;
  thread_init = λ w. (w, refl, refl);
  register_thread = λ w e. (at inside w, refl, refl);
  create_eventset = λ w e. (1, at (holding 1 0) w, refl, refl);
  together = λ codes. true;
  add_events = λ w h codes e fit. (at (holding h (length codes)) w, refl, refl);
  start = λ w h n e. (at (started w.phase) w, refl, ap started e);
  stop = λ w h n e. (
    replicate (size w.phase) (pos 7),
    at (stopped w.phase) w,
    refl,
    length-replicate (size w.phase) (pos 7) ∙ ap size e,
    ap stopped e,
  );
  reset = λ w h n e. (w, refl, e);
  cleanup_eventset = λ w h n e. (at (emptied w.phase) w, refl, ap emptied e);
  destroy_eventset = λ w h e. (at inside w, refl, refl);
  unregister_thread = λ w e. (at outside w, refl, refl);
  rdtsc = λ w. refl;
}

-- A state of it, and what a loop may do to it.
abbrev pub idle_machine : Machine
idle_machine = record { phase = outside; clock = 1000 }

abbrev pub advance : Machine → Machine
advance w = record w { clock = w.clock + 12 }

-- It knows the events of its table.
abbrev pub in_table :
    (events : List String) → Codes machine events (map code_of events) → Known lawful events
in_table [] matched = tt
in_table (e ∷ events) matched = record {
  codes = map code_of (e ∷ events);
  matched = matched;
  fit = refl;
}
