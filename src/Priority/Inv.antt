-- ===== src/Priority/Inv.antt =====
-- What holds in every state of `counters_with_priority_schedule`.
use microrev.Common.{
  ℕ, zero, suc, ◌≤◌, ◌<◌, ◌≡◌, ◌≢◌, arith, Bool, true, false, List, [], ◌∷◌, if◌then◌else◌,
}
use microrev.Threads.{
  scheduler, worker, Place, absent, sleeping, finished, lock, sleep, pass, relock, measure, unlock,
  spurious,
}
use microrev.Threads.Inv.{holds, passed, measured}
use microrev.Priority.{
  Turn, spawning, pinning, guarded, signalling, locking, checking, waiting, woken, joining, ended,
  System, Step, moves, notifies, notifies_none, spawn, pin, take, open_gate, signal, acquire, wait,
  see_ready, wakes, reacquire, join, finish, Reach, start, later,
}

-- The scheduler owns the mutex.
abbrev pub has_mutex : Turn → Bool
has_mutex guarded = true
has_mutex checking = true
has_mutex _ = false

-- There is no worker.
abbrev pub between : Turn → Bool
between spawning = true
between ended = true
between _ = false

-- The scheduler is past `notify_one`, so that `pause` is false and the worker was woken.
abbrev pub signalled : Turn → Bool
signalled locking = true
signalled checking = true
signalled waiting = true
signalled woken = true
signalled joining = true
signalled _ = false

-- The scheduler is past `pin_to_core`.
abbrev pub past_pin : Turn → Bool
past_pin spawning = false
past_pin pinning = false
past_pin ended = false
past_pin _ = true

-- `k - 1`, `k - 2`, …, 0
abbrev pub down_from : ℕ → List ℕ
down_from zero = []
down_from (suc k) = k ∷ down_from k

abbrev pub is_measured : Place → ℕ
is_measured p = if measured p then 1 else 0

pub record Inv (n : ℕ) (s : System) : Type 0 where
  pub owns : holds s.place ≡ true → s.owner ≡ worker s.round
  pub owned : (i : ℕ) → s.owner ≡ worker i → holds s.place ≡ true
  pub held : has_mutex s.turn ≡ true → s.owner ≡ scheduler
  pub holder : s.owner ≡ scheduler → has_mutex s.turn ≡ true
  pub none_between : between s.turn ≡ true → s.place ≡ absent
  pub one_inside : s.place ≡ absent → between s.turn ≡ true
  pub open_now : signalled s.turn ≡ true → s.pause ≡ false
  pub bound : past_pin s.turn ≡ true → s.pinned ≡ true
  pub open_first : passed s.place ≡ true → s.pause ≡ false
  pub opened : s.turn ≡ signalling → s.pause ≡ false
  pub awake : signalled s.turn ≡ true → s.place ≢ sleeping
  pub waited_for : s.turn ≡ waiting → s.place ≢ finished
  pub told_first : measured s.place ≡ true → s.ready ≡ true
  pub logged : s.log ≡ (if measured s.place then s.round ∷ down_from s.round else down_from s.round)
  pub rounds : s.round ≤ n
  pub inside : between s.turn ≡ false → s.round < n
  pub all_done : s.turn ≡ ended → s.round ≡ n

Step-Inv : {n : ℕ} {s t : System} → Step n s t → Inv n s → Inv n t
Step-Inv (moves e (lock h)) inv = ground arith
Step-Inv (moves e (sleep h)) inv = ground arith
Step-Inv (moves e (pass h)) inv = ground arith
Step-Inv (moves e (relock h)) inv = ground arith
Step-Inv (moves e measure) inv = ground arith
Step-Inv (moves e unlock) inv = ground arith
Step-Inv (moves e spurious) inv = ground arith
Step-Inv (notifies e h) inv = ground arith
Step-Inv (notifies_none e h) inv = ground arith
Step-Inv (spawn e h) inv = ground arith
Step-Inv (pin e) inv = ground arith
Step-Inv (take e h) inv = ground arith
Step-Inv (open_gate e) inv = ground arith
Step-Inv (signal e) inv = ground arith
Step-Inv (acquire e h) inv = ground arith
Step-Inv (wait e h) inv = ground arith
Step-Inv (see_ready e h) inv = ground arith
Step-Inv (wakes e) inv = ground arith
Step-Inv (reacquire e h) inv = ground arith
Step-Inv (join e h) inv = ground arith
Step-Inv (finish e h) inv = ground arith

pub Reach-Inv : {n : ℕ} {entry : Bool} {s : System} → Reach n entry s → Inv n s
Reach-Inv start = ground arith
Reach-Inv (later r st) = Step-Inv st (Reach-Inv r)
