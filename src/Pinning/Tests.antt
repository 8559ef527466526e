-- ===== src/Pinning/Tests.antt =====
-- A machine of eight cores, on which the calls do what their documentation says.
use microrev.Common.{
  ℕ, zero, suc, ◌<◌, ◌≡◌, ◌≢◌, refl, arith, Bool, true, false, List, [], ◌∷◌, ◌==◌, ◌||◌,
  if◌then◌else◌,
}
use microrev.Bench.{Sched, sched, reader}
use microrev.Pinning.{Affinity, Documented, exited, counter_benchmark, spawn_all}
use microrev.Pinning.Laws.{SpawnEnds, spawn_all-Bound}

-- The threads are numbered in the order of their creation; a new one runs everywhere.
record CoreTable : Type 0 where
  count : ℕ
  allowed : ℕ → ℕ → Bool

abbrev set_of : ℕ → (ℕ → Bool) → ℕ → Bool
set_of c s d = if d == c then true else s d

abbrev any_below : ℕ → (ℕ → Bool) → Bool
any_below zero s = false
any_below (suc n) s = s n || any_below n s

-- EINVAL is 22.
abbrev affinity_call : ℕ → (ℕ → Bool) → CoreTable → Bool → ℕ × CoreTable
affinity_call t s w false = (22, w)
affinity_call t s w true = (0, record w { allowed = λ u c. if u == t then s c else w.allowed u c })

abbrev eight_cores : Affinity
eight_cores = record {
  World = CoreTable;
  Thread = ℕ;
  CpuSet = ℕ → Bool;
  cpu_zero = λ d. false;
  cpu_set = set_of;
  new_thread = λ w. (
    w.count,
    record w { count = suc w.count; allowed = λ u c. if u == w.count then true else w.allowed u c },
  );
  pthread_self = 0;
  pthread_setaffinity_np = λ t s w. affinity_call t s w (any_below 8 s);
}

affinity_call-binds :
    (t : ℕ) (s : ℕ → Bool) (w : CoreTable) (ok : Bool)
    → (affinity_call t s w ok).0 ≡ 0
    → (c : ℕ) → (affinity_call t s w ok).1.allowed t c ≡ true
    → s c ≡ true
affinity_call-binds t s w true good c may = ground arith
affinity_call-binds t s w false good c may = absurd (ground arith)

affinity_call-count :
    (t : ℕ) (s : ℕ → Bool) (w : CoreTable) (ok : Bool) → (affinity_call t s w ok).1.count ≡ w.count
affinity_call-count t s w true = refl
affinity_call-count t s w false = refl

affinity_call-others :
    (t u : ℕ) (s : ℕ → Bool) (w : CoreTable) (ok : Bool)
    → u ≢ t
    → (c : ℕ) → (affinity_call t s w ok).1.allowed u c ≡ w.allowed u c
affinity_call-others t u s w true other c = ground arith
affinity_call-others t u s w false other c = refl

allowed-new :
    (w : CoreTable) (t : ℕ)
    → t < w.count
    → (c : ℕ) → (if t == w.count then true else w.allowed t c) ≡ w.allowed t c
allowed-new w t lt c = ground arith

abbrev as_documented : Documented eight_cores
as_documented = record {
  setsize = 1024;
  has_cpu = λ c s. s c;
  may_run = λ w t c. w.allowed t c;
  Live = λ w t. t < w.count;
  zero_is_empty = λ c. refl;
  set_adds = λ c d s lt. refl;
  starts = λ w. omega arith;
  is_new = λ w t lt. (λ e. omega arith, omega arith, λ c. allowed-new w t lt c);
  stays = λ w t u s lt. rw (affinity_call-count t s w (any_below 8 s)) lt;
  binds = λ w t s lt good c may. affinity_call-binds t s w (any_below 8 s) good c may;
  leaves_others = λ w t u s other c. affinity_call-others t u s w (any_below 8 s) other c;
}

-- The calling thread is number 0.
abbrev at_start : CoreTable
at_start = record { count = 1; allowed = λ u c. true }

abbrev two_readers : List Sched
two_readers = sched 2 reader [] ∷ sched 5 reader [] ∷ []

spawn_all-Bound_example :
    SpawnEnds eight_cores as_documented [] two_readers
      (spawn_all eight_cores 0 two_readers (counter_benchmark eight_cores at_start))
spawn_all-Bound_example =
    spawn_all-Bound eight_cores as_documented two_readers at_start (omega arith, (omega arith, tt))

-- The machine has no core 9.
exits_on_nine :
    spawn_all eight_cores 0
      (sched 2 reader [] ∷ sched 9 reader [] ∷ [])
      (counter_benchmark eight_cores at_start)
    ≡ exited 1 9
unfolding spawn_all counter_benchmark
exits_on_nine = refl
