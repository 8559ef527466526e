-- ===== src/Pinning.antt =====
-- src/library/include/thread_utils.h: the constructor of `CounterBenchmark`, `set_core_num`,
-- `pin_to_core` and the first loop of `counters_with_schedule`; src/library/lib/thread_utils.cpp:
-- `pin_self_to_core`. The macros of sched.h, `std::thread` and `pthread_setaffinity_np` are the
-- parameter `Affinity`, and `Documented` says what the code relies on.
pub mod Laws
mod Tests
use microrev.Common.{
  ℕ, zero, suc, ◌+◌, ◌<◌, ◌≡◌, ◌≢◌, Bool, true, false, Option, none, some, List, [], ◌∷◌, ◌++◌,
  ◌==◌, if◌then◌else◌, get_elem?,
}
use microrev.Bench.{Sched}
use microrev.Constants.{default_phys_core_count}

pub record Affinity : Type 1 where
  pub World : Type 0
  pub Thread : Type 0
  pub CpuSet : Type 0
  pub cpu_zero : CpuSet
  pub cpu_set : ℕ → CpuSet → CpuSet
  pub new_thread : World → Thread × World  -- `std::thread( … )`
  pub pthread_self : Thread  -- of the thread that makes the calls below
  pub pthread_setaffinity_np : Thread → CpuSet → World → ℕ × World

-- What CPU_ZERO(3), CPU_SET(3) and pthread_setaffinity_np(3) say: after a call that returns 0 the
-- thread runs only on cores of the set. It may have fewer, those that the machine has.
pub record Documented (A : Affinity) : Type 1 where
  pub setsize : ℕ  -- CPU_SETSIZE
  pub has_cpu : ℕ → A.CpuSet → Bool
  pub may_run : A.World → A.Thread → ℕ → Bool
  pub Live : A.World → A.Thread → Type 0
  pub zero_is_empty : (c : ℕ) → has_cpu c A.cpu_zero ≡ false
  pub set_adds :
      (c d : ℕ) (s : A.CpuSet)
      → c < setsize
      → has_cpu d (A.cpu_set c s) ≡ (if d == c then true else has_cpu d s)
  pub starts : (w : A.World) → Live (A.new_thread w).1 (A.new_thread w).0
  pub is_new :
      (w : A.World) (t : A.Thread)
      → Live w t
      → (t ≢ (A.new_thread w).0)
        × Live (A.new_thread w).1 t
        × ((c : ℕ) → may_run (A.new_thread w).1 t c ≡ may_run w t c)
  pub stays :
      (w : A.World) (t u : A.Thread) (s : A.CpuSet)
      → Live w u
      → Live (A.pthread_setaffinity_np t s w).1 u
  pub binds :
      (w : A.World) (t : A.Thread) (s : A.CpuSet)
      → Live w t
      → (A.pthread_setaffinity_np t s w).0 ≡ 0
      → (c : ℕ) → may_run (A.pthread_setaffinity_np t s w).1 t c ≡ true
      → has_cpu c s ≡ true
  pub leaves_others :
      (w : A.World) (t u : A.Thread) (s : A.CpuSet)
      → u ≢ t
      → (c : ℕ) → may_run (A.pthread_setaffinity_np t s w).1 u c ≡ may_run w u c

-- How a call ends. `exited` has the two numbers of the message "Failed to pin thread … to core …";
-- `undefined` is a read past the end of `threads`.
pub data Outcome (R : Type 0) : Type 0 where
  returned : R → Outcome R
  exited : ℕ → ℕ → Outcome R
  undefined : Outcome R

abbrev pub and_then : {R S : Type 0} → Outcome R → (R → Outcome S) → Outcome S
and_then (returned r) f = f r
and_then (exited th_idx core_id) f = exited th_idx core_id
and_then undefined f = undefined

-- The fields of `CounterBenchmark` behind the mutex, the condition variable and the two flags.
pub record Pool (A : Affinity) : Type 0 where
  pub benchmark_cores : ℕ
  pub threads : List A.Thread
  pub world : A.World

module _ (A : Affinity) where
  open A use {
    World, Thread, CpuSet, cpu_zero, cpu_set, new_thread, pthread_self, pthread_setaffinity_np,
  }

  abbrev pub cpuset_of : ℕ → CpuSet
  cpuset_of core_id = cpu_set core_id cpu_zero

  -- The result of the call is ignored.
  unfoldable pub pin_self_to_core : ℕ → World → World
  pin_self_to_core core_id w = (pthread_setaffinity_np pthread_self (cpuset_of core_id) w).1

  unfoldable pub counter_benchmark : World → Pool A
  unfolding pin_self_to_core
  counter_benchmark w = record {
    benchmark_cores = default_phys_core_count;
    threads = [];
    world = pin_self_to_core 0 w;
  }

  abbrev pub set_core_num : ℕ → Pool A → Pool A
  set_core_num benchmark_cores b = record b { benchmark_cores = benchmark_cores }

  abbrev pub check_retval : ℕ → ℕ → Pool A → ℕ × World → Outcome (Pool A)
  check_retval th_idx core_id b (retval, w) =
      if retval == 0 then returned (record b { world = w }) else exited th_idx core_id

  abbrev pub pin_handle : ℕ → ℕ → Pool A → Option Thread → Outcome (Pool A)
  pin_handle th_idx core_id b none = undefined
  pin_handle th_idx core_id b (some t) =
      check_retval th_idx core_id b (pthread_setaffinity_np t (cpuset_of core_id) b.world)

  unfoldable pub pin_to_core : ℕ → ℕ → Pool A → Outcome (Pool A)
  pin_to_core th_idx core_id b = pin_handle th_idx core_id b (get_elem? b.threads th_idx)

  -- `threads.push_back( std::thread( … ) )`
  abbrev pub push_thread : Pool A → Pool A
  push_thread b = record b {
    threads = b.threads ++ (new_thread b.world).0 ∷ [];
    world = (new_thread b.world).1;
  }

  -- The first loop of `counters_with_schedule`, from the entry number `i`
  unfoldable pub spawn_all : ℕ → List Sched → Pool A → Outcome (Pool A)
  unfolding pin_to_core
  spawn_all i [] b = returned b
  spawn_all i (e ∷ svec) b =
      and_then (pin_to_core i e.core_id (push_thread b)) (spawn_all (suc i) svec)
