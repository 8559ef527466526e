-- ===== src/Priority.antt =====
-- src/library/include/thread_utils.h: `counters_with_priority_schedule`, which runs the threads of
-- a schedule of `n` entries one after the other. The worker is the one of `Threads`; the scheduler
-- starts one in each round, waits for `ready` and joins it. One step is one synchronising action.
pub mod Inv
pub mod Safety
pub mod Rank
pub mod Runs
pub mod Pinned
mod Tests
use microrev.Common.{ℕ, suc, ◌<◌, ◌≡◌, ◌≢◌, Bool, true, false, List, [], ◌∷◌}
use microrev.Threads.{
  Owner, nobody, scheduler, Place, absent, entering, notifying, finished, Sync, wake, Move, Caused,
}

-- Where the scheduler stands in its loop.
pub data Turn : Type 0 where
  spawning : Turn  -- at the head of the loop
  pinning : Turn  -- before `pin_to_core( 0, svec[i].core_id )`
  opening : Turn  -- before `lock_guard lck( mtx )`
  guarded : Turn  -- inside its block
  signalling : Turn  -- before `cv.notify_one()`
  locking : Turn  -- before `unique_lock lck( mtx )`
  checking : Turn  -- tests `wakeup`, as owner of the mutex
  waiting : Turn  -- inside `cv.wait`
  woken : Turn  -- woken, before it owns the mutex again
  joining : Turn
  ended : Turn

-- The thread of the round is the only one; between two rounds there is none.
pub record System : Type 0 where
  pub sync : Sync
  pub open sync use *
  pub round : ℕ
  pub turn : Turn
  pub place : Place
  pub pinned : Bool  -- `pin_to_core` has bound the thread to the core of its entry

pub data Step (n : ℕ) (s : System) : System → Type 0 where
  moves :
      {m : Sync} {p p' : Place}
      → s.place ≡ p
      → Move s.sync s.round p m p'
      → Step n s (record s { sync = m; place = p' })
  -- The scheduler alone can be waiting then.
  notifies :
      s.place ≡ notifying
      → s.turn ≡ waiting
      → Step n s (record s { turn = woken; place = finished })
  notifies_none : s.place ≡ notifying → s.turn ≢ waiting → Step n s (record s { place = finished })
  spawn :
      s.turn ≡ spawning
      → s.round < n
      → Step n s (record s { turn = pinning; place = entering; pinned = false })
  pin : s.turn ≡ pinning → Step n s (record s { turn = opening; pinned = true })
  take :
      s.turn ≡ opening
      → s.owner ≡ nobody
      → Step n s (record s { sync = record s.sync { owner = scheduler }; turn = guarded })
  open_gate :
      s.turn ≡ guarded
      → Step n s
          (record s { sync = record s.sync { owner = nobody; pause = false }; turn = signalling })
  signal : s.turn ≡ signalling → Step n s (record s { turn = locking; place = wake s.place })
  acquire :
      s.turn ≡ locking
      → s.owner ≡ nobody
      → Step n s (record s { sync = record s.sync { owner = scheduler }; turn = checking })
  wait :
      s.turn ≡ checking
      → s.ready ≡ false
      → Step n s (record s { sync = record s.sync { owner = nobody }; turn = waiting })
  see_ready :
      s.turn ≡ checking
      → s.ready ≡ true
      → Step n s (record s { sync = record s.sync { owner = nobody }; turn = joining })
  wakes : s.turn ≡ waiting → Step n s (record s { turn = woken })
  reacquire :
      s.turn ≡ woken
      → s.owner ≡ nobody
      → Step n s (record s { sync = record s.sync { owner = scheduler }; turn = checking })
  -- `join`, `threads.clear()`, and the next round
  join :
      s.turn ≡ joining
      → s.place ≡ finished
      → Step n s (record s { turn = spawning; round = suc s.round; place = absent })
  finish :
      s.turn ≡ spawning
      → s.round ≡ n
      → Step n s (record s { sync = record s.sync { ready = false; pause = false }; turn = ended })

-- `CounterBenchmark()` sets `pause`; it is unset on entry to a later call for the same object.
abbrev pub init : Bool → System
init pause = record {
  sync = record { owner = nobody; pause = pause; ready = false; log = [] };
  round = 0;
  turn = spawning;
  place = absent;
  pinned = false;
}

-- From a call that finds `pause` as `entry` says
pub data Reach (n : ℕ) (entry : Bool) : System → Type 0 where
  start : Reach n entry (init entry)
  later : {s t : System} → Reach n entry s → Step n s t → Reach n entry t

-- Every step but a wake-up that nobody caused.
abbrev pub Directed : {n : ℕ} {s t : System} → Step n s t → Type 0
Directed (moves e mv) = Caused mv
Directed (wakes e) = ⊥
Directed _ = Unit
