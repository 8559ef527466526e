-- ===== src/Threads.antt =====
-- src/library/include/thread_utils.h: `counter_thread_fn` under `counters_with_schedule`, as an
-- interleaving of `n` worker threads and the scheduler, one synchronising action at a time.
-- A mutex has one owner. `cv.wait` with a predicate tests it under the mutex, and goes to sleep and
-- releases the mutex in one action; it may wake for no reason. The benchmark, with the calls of the
-- counter around it, is one action of the worker. Threads are numbered from 0; a number from `n` on
-- names no thread and stays `absent`.
pub mod Inv
mod Moves
mod Steps
pub mod Stages
mod Rank
pub mod Safety
pub mod Runs
mod Tests
use microrev.Common.{ℕ, suc, ◌<◌, ◌≡◌, ◌≢◌, Bool, true, false, List, [], ◌∷◌, ◌==◌, if◌then◌else◌}

pub data Owner : Type 0 where
  nobody scheduler : Owner
  worker : ℕ → Owner

-- Where a worker stands in `counter_thread_fn`.
pub data Place : Type 0 where
  absent : Place  -- not created
  entering : Place  -- before `unique_lock lck( mtx )`
  testing : Place  -- tests `not_paused`, as owner of the mutex
  sleeping : Place  -- inside `cv.wait`
  waking : Place  -- woken, before it owns the mutex again
  running : Place  -- from `counter.core_id = core_id` to `counter.end()`
  finishing : Place  -- `ready` is set, before `lck.unlock()`
  notifying : Place  -- before `cv.notify_one()`
  finished : Place

-- Where the scheduler stands in `counters_with_schedule`.
pub data Stage : Type 0 where
  spawning : ℕ → Stage  -- the first loop, at this thread
  pinning : ℕ → Stage  -- before `pin_to_core`, for the thread just created
  opening : Stage  -- before `lock_guard lck( mtx )`
  holding : Stage  -- inside its block
  broadcasting : Stage  -- before `cv.notify_all()`
  joining : ℕ → Stage  -- the loop of `join`, at this thread
  ended : Stage

-- The fields of `CounterBenchmark` that the threads share, and the order in which benchmarks ended.
pub record Sync : Type 0 where
  pub owner : Owner
  pub pause : Bool
  pub ready : Bool
  pub log : List ℕ

pub record System : Type 0 where
  pub sync : Sync
  pub open sync use *
  pub stage : Stage
  pub place : ℕ → Place
  pub pinned : ℕ → Bool  -- the threads that `pin_to_core` has bound to the core of their entry

abbrev pub move_to : (ℕ → Place) → ℕ → Place → ℕ → Place
move_to f i p j = if i == j then p else f j

-- `pin_to_core( i, svec[i].core_id )`, where `pthread_setaffinity_np` succeeds
abbrev pub pin_thread : (ℕ → Bool) → ℕ → ℕ → Bool
pin_thread f i j = if i == j then true else f j

-- `cv.notify_all`
abbrev pub wake : Place → Place
wake sleeping = waking
wake p = p

-- What worker `i` does by itself.
pub data Move (m : Sync) (i : ℕ) : Place → Sync → Place → Type 0 where
  lock : m.owner ≡ nobody → Move m i entering (record m { owner = worker i }) testing
  sleep : m.pause ≡ true → Move m i testing (record m { owner = nobody }) sleeping
  pass : m.pause ≡ false → Move m i testing m running
  relock : m.owner ≡ nobody → Move m i waking (record m { owner = worker i }) testing
  measure : Move m i running (record m { ready = true; log = i ∷ m.log }) finishing
  unlock : Move m i finishing (record m { owner = nobody }) notifying
  spurious : Move m i sleeping m waking

pub data Step (n : ℕ) (s : System) : System → Type 0 where
  moves :
      (i : ℕ) {m : Sync} {p p' : Place}
      → i < n
      → s.place i ≡ p
      → Move s.sync i p m p'
      → Step n s (record s { sync = m; place = move_to s.place i p' })
  -- `notify_one` wakes one thread that sleeps; it may also find none that it wakes.
  notifies :
      (i j : ℕ)
      → i < n
      → s.place i ≡ notifying
      → s.place j ≡ sleeping
      → Step n s (record s { place = move_to (move_to s.place i finished) j waking })
  notifies_none :
      (i : ℕ)
      → i < n
      → s.place i ≡ notifying
      → Step n s (record s { place = move_to s.place i finished })
  spawn :
      (k : ℕ)
      → k < n
      → s.stage ≡ spawning k
      → Step n s (record s { stage = pinning k; place = move_to s.place k entering })
  pin :
      (k : ℕ)
      → s.stage ≡ pinning k
      → Step n s (record s { stage = spawning (suc k); pinned = pin_thread s.pinned k })
  spawned : s.stage ≡ spawning n → Step n s (record s { stage = opening })
  take :
      s.stage ≡ opening
      → s.owner ≡ nobody
      → Step n s (record s { sync = record s.sync { owner = scheduler }; stage = holding })
  open_gate :
      s.stage ≡ holding
      → Step n s (record s {
        sync = record s.sync { owner = nobody; pause = false };
        stage = broadcasting;
      })
  broadcast :
      s.stage ≡ broadcasting
      → Step n s (record s { stage = joining 0; place = λ j. wake (s.place j) })
  join :
      (k : ℕ)
      → k < n
      → s.stage ≡ joining k
      → s.place k ≡ finished
      → Step n s (record s { stage = joining (suc k) })
  finish :
      s.stage ≡ joining n
      → Step n s (record s { sync = record s.sync { ready = false; pause = false }; stage = ended })

-- `CounterBenchmark()`, on entry to `counters_with_schedule`
abbrev pub init : System
init = record {
  sync = record { owner = nobody; pause = true; ready = false; log = [] };
  stage = spawning 0;
  place = λ _. absent;
  pinned = λ _. false;
}

pub data Reach (n : ℕ) : System → Type 0 where
  start : Reach n init
  later : {s t : System} → Reach n s → Step n s t → Reach n t

-- Every move but a wake-up that nobody caused, and every step but those.
abbrev pub Caused : {m m' : Sync} {i : ℕ} {p p' : Place} → Move m i p m' p' → Type 0
Caused spurious = ⊥
Caused _ = Unit

abbrev pub Directed : {n : ℕ} {s t : System} → Step n s t → Type 0
Directed (moves i lt e mv) = Caused mv
Directed _ = Unit
