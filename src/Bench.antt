-- ===== src/Bench.antt =====
-- The schedules of src/library/include/benchmark_helpers.h (macro BENCHMARK_INIT): `init_state`,
-- which is to put the lines of the shared block into a coherence state, and `run_test`, which
-- measures a body in that state. A body is named here; what it does to memory is in `Walk`.
pub mod States
pub mod Scheduled
mod Tests
use microrev.Common.{ℕ, Bool, true, false, List, [], ◌∷◌, ◌++◌, ◌==◌, ◌||◌, if◌then◌else◌}
use microrev.Coherence.{Protocol}
use Prim.Native.String.{String}

pub data Body : Type 0 where
  flusher reader writer producer consumer demoter : Body

-- `Schedule`, for benchmarks that `B` names; the member `measurement_scheds` is never read.
pub record Schedule (B : Type 0) : Type 0 where
  pub core_id : ℕ
  pub benchmark : B
  pub events : List String
  pub label : String

-- Those of BENCHMARK_INIT.
abbrev pub Sched : Type 0
Sched = Schedule Body

abbrev pub sched : {B : Type 0} → ℕ → B → List String → Schedule B
sched core benchmark events = record {
  core_id = core;
  benchmark = benchmark;
  events = events;
  label = "";
}

-- The constructor that takes a label.
abbrev pub labelled : {B : Type 0} → ℕ → B → List String → String → Schedule B
labelled core benchmark events label = record {
  core_id = core;
  benchmark = benchmark;
  events = events;
  label = label;
}

-- The macros of the states that `init_state` is given.
abbrev pub m_state : ℕ
m_state = 0

abbrev pub e_state : ℕ
e_state = 1

abbrev pub s_state : ℕ
s_state = 2

abbrev pub i_state : ℕ
i_state = 3

abbrev pub o_state : ℕ
o_state = 4

abbrev pub f_state : ℕ
f_state = 5

-- What each case of the `switch` pushes.
m_entries : ℕ → List String → List Sched
m_entries core_a cnt_vec = sched core_a writer cnt_vec ∷ []

e_entries : ℕ → List String → List Sched
e_entries core_a cnt_vec =
    sched core_a writer [] ∷ sched core_a flusher [] ∷ sched core_a reader cnt_vec ∷ []

s_entries : ℕ → ℕ → List Sched
s_entries core_a core_b =
    sched core_a writer [] ∷ sched core_a reader [] ∷ sched core_b reader [] ∷ []

i_entries : ℕ → List String → List Sched
i_entries core_a cnt_vec = sched core_a writer cnt_vec ∷ sched core_a flusher cnt_vec ∷ []

f_entries : ℕ → ℕ → List String → List Sched
f_entries core_a core_b cnt_vec =
    sched core_b writer [] ∷ sched core_a reader cnt_vec ∷ sched core_b flusher [] ∷ []

-- `O_STATE` has no case.
unfoldable pub init_state : List Sched → ℕ → ℕ → ℕ → List String → List Sched
unfolding m_entries e_entries s_entries i_entries f_entries
init_state vec cc_state core_a core_b cnt_vec =
    if cc_state == m_state
    then vec ++ m_entries core_a cnt_vec
    else (if cc_state == e_state
        then vec ++ e_entries core_a cnt_vec
        else (if cc_state == s_state
            then vec ++ s_entries core_a core_b
            else (if cc_state == i_state
                then vec ++ i_entries core_a cnt_vec
                else (if cc_state == f_state
                    then vec ++ f_entries core_a core_b cnt_vec
                    else vec))))

pub data MesiType : Type 0 where
  producer_consumer : MesiType
  store_on_modified store_on_exclusive store_on_shared_or_forward store_on_invalid : MesiType
  load_from_modified load_from_exclusive load_from_shared_or_forward load_from_invalid : MesiType
  flush : MesiType

pub data CorePlacement : Type 0 where
  local socket global : CorePlacement

-- The cores of the configuration.
pub record Cores : Type 0 where
  pub core_src : ℕ
  pub core_socket0 : ℕ
  pub core_socket1 : ℕ
  pub core_global0 : ℕ
  pub core_global1 : ℕ

-- The first `switch` of `run_test`: `core_b` and `core_c`.
pub core_b : Cores → CorePlacement → ℕ
core_b k local = k.core_socket0
core_b k socket = k.core_socket0
core_b k global = k.core_global0

pub core_c : Cores → CorePlacement → ℕ
core_c k local = k.core_src
core_c k socket = k.core_socket1
core_c k global = k.core_global1

-- A test of one body on `core_c`, in a state that `init_state` is asked for without events.
abbrev probe : List Sched → ℕ → ℕ → ℕ → ℕ → Body → List String → List Sched
probe vec cc_state a b c body cnt_vec = init_state vec cc_state a b [] ++ sched c body cnt_vec ∷ []

-- The flushes on all cores, and the second `switch`.
unfoldable pub test_schedule : MesiType → ℕ → ℕ → ℕ → List String → List Sched
test_schedule t a b c cnt_vec =
    let vec : List Sched = sched a flusher [] ∷ sched b flusher [] ∷ sched c flusher [] ∷ [] in
    elim t [
      | producer_consumer ↦ sched a producer cnt_vec ∷ sched c consumer cnt_vec ∷ []
      | store_on_modified ↦ probe vec m_state a b c writer cnt_vec
      | store_on_exclusive ↦ probe vec e_state a b c writer cnt_vec
      | store_on_shared_or_forward ↦ probe vec s_state a b c writer cnt_vec
      | store_on_invalid ↦ probe vec i_state a b c writer cnt_vec
      | load_from_modified ↦ probe vec m_state a b c reader cnt_vec
      | load_from_exclusive ↦ probe vec e_state a b c reader cnt_vec
      | load_from_shared_or_forward ↦ probe vec s_state a b c reader cnt_vec
      | load_from_invalid ↦ probe vec i_state a b c reader cnt_vec
      | flush ↦ vec ++ sched a flusher [] ∷ []
    ]

abbrev pub is_nil : List String → Bool
is_nil [] = true
is_nil (x ∷ xs) = false

-- `cnt.cset` has the codes of the events of its entry, so this is `cnt.cset.size() == 0`.
abbrev pub is_unmeasured : Sched → Bool
is_unmeasured e = is_nil e.events

abbrev pub measured_only : List Sched → List Sched
measured_only [] = []
measured_only (e ∷ es) = if is_unmeasured e then measured_only es else e ∷ measured_only es

-- What a body does to a line of the block, on a core. `last` is whether it is the last line of the ring,
-- which the walks of `reader_`, `producer_` and `consumer_` do not come to: they begin with the word
-- behind the block. `flusher_` goes over all bytes; `demoter_` is empty unless compiled by LLVM.
module _ (P : Protocol) (last : Bool) where
  abbrev pub act : Body → ℕ → P.Line → P.Line
  act flusher core l = P.flush core l
  act reader core l = if last then l else P.read core l
  act writer core l = P.write core l
  act producer core l = if last then l else P.write core l
  act consumer core l = if last then l else P.read core l
  act demoter core l = l

  -- The entries of a priority schedule, one after the other.
  abbrev pub perform_all : List Sched → P.Line → P.Line
  perform_all [] l = l
  perform_all (e ∷ es) l = perform_all es (act e.benchmark e.core_id l)
