-- ===== src/Priority/Rank.antt =====
-- The end of `counters_with_priority_schedule`: a rank of its states.
use microrev.Common.{ℕ, Bool, ◌+◌, ◌-◌, ◌*◌, ◌<◌, arith}
use microrev.Threads.{
  Place, absent, entering, testing, sleeping, waking, running, finishing, notifying, finished, lock,
  sleep, pass, relock, measure, unlock, spurious,
}
use microrev.Priority.{
  Turn, spawning, pinning, opening, guarded, signalling, locking, checking, waiting, woken, joining,
  ended, System, Step, moves, notifies, notifies_none, spawn, pin, take, open_gate, signal, acquire,
  wait, see_ready, wakes, reacquire, join, finish, Reach, Directed,
}
use microrev.Priority.Inv.{Reach-Inv}

-- What the worker, and the scheduler within its round, have before them.
abbrev weight : Place → ℕ
weight absent = 10
weight entering = 10
weight waking = 9
weight testing = 8
weight sleeping = 7
weight running = 6
weight finishing = 5
weight notifying = 4
weight finished = 0

abbrev turn_weight : Turn → ℕ
turn_weight spawning = 17
turn_weight pinning = 16
turn_weight opening = 15
turn_weight guarded = 14
turn_weight signalling = 13
turn_weight locking = 9
turn_weight woken = 8
turn_weight checking = 7
turn_weight waiting = 5
turn_weight joining = 4
turn_weight ended = 0

abbrev pub rank : ℕ → System → ℕ
rank n s = 24 * (n - s.round) + weight s.place + turn_weight s.turn

-- A step that somebody causes brings the schedule nearer to its end: the rank of the state falls, so
-- no run takes such steps for ever.
pub rank_drops :
    {n : ℕ} {entry : Bool} {s t : System}
    → Reach n entry s
    → (st : Step n s t) → Directed st
    → rank n t < rank n s
rank_drops r (moves e (lock h)) d = ground arith
rank_drops r (moves e (sleep h)) d = ground arith
rank_drops r (moves e (pass h)) d = ground arith
rank_drops r (moves e (relock h)) d = ground arith
rank_drops r (moves e measure) d = ground arith
rank_drops r (moves e unlock) d = ground arith
rank_drops r (notifies e h) d = ground arith
rank_drops r (notifies_none e h) d = ground arith
rank_drops r (spawn e h) d = ground (arith, (Reach-Inv r).none_between)
rank_drops r (pin e) d = ground arith
rank_drops r (take e h) d = ground arith
rank_drops r (open_gate e) d = ground arith
rank_drops r (signal e) d = ground arith
rank_drops r (acquire e h) d = ground arith
rank_drops r (wait e h) d = ground arith
rank_drops r (see_ready e h) d = ground arith
rank_drops r (reacquire e h) d = ground arith
rank_drops r (join e h) d = ground (arith, (Reach-Inv r).inside)
rank_drops r (finish e h) d = ground arith
rank_drops r (moves e spurious) d = elim d [ ]
rank_drops r (wakes e) d = elim d [ ]
