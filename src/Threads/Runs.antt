-- ===== src/Threads/Runs.antt =====
-- Runs of two and of three threads of `counters_with_schedule`.
use microrev.Common.{ℕ, refl, arith}
use microrev.Threads.{
  System, Step, lock, sleep, pass, measure, unlock, relock, moves, notifies_none, spawn, pin,
  spawned, take, open_gate, broadcast, join, finish, Reach, start, later,
}

pub record Run (n : ℕ) : Type 0 where
  pub last : System
  pub reach : Reach n last

-- A run and a step more.
infixl 20 ◌▸◌
abbrev ◌▸◌ : {n : ℕ} {s t : System} → Reach n s → Step n s t → Reach n t
reach ▸ step = later reach step

-- Two threads are created, the first one sleeps, the gate opens, and the second one runs.
abbrev pub second_runs : Run 2
second_runs = record {
  last = _;
  reach =
      start
      ▸ spawn 0 (omega arith) refl
      ▸ pin 0 refl
      ▸ moves 0 (omega arith) refl (lock refl)
      ▸ moves 0 (omega arith) refl (sleep refl)
      ▸ spawn 1 (omega arith) refl
      ▸ pin 1 refl
      ▸ spawned refl
      ▸ take refl refl
      ▸ open_gate refl
      ▸ moves 1 (omega arith) refl (lock refl)
      ▸ moves 1 (omega arith) refl (pass refl);
}

-- The same run, to its end: the second thread runs its benchmark first.
abbrev pub two_threads : Run 2
two_threads = record {
  last = _;
  reach =
      second_runs.reach
      ▸ moves 1 (omega arith) refl measure
      ▸ moves 1 (omega arith) refl unlock
      ▸ notifies_none 1 (omega arith) refl
      ▸ broadcast refl
      ▸ moves 0 (omega arith) refl (relock refl)
      ▸ moves 0 (omega arith) refl (pass refl)
      ▸ moves 0 (omega arith) refl measure
      ▸ moves 0 (omega arith) refl unlock
      ▸ notifies_none 0 (omega arith) refl
      ▸ join 0 (omega arith) refl refl
      ▸ join 1 (omega arith) refl refl
      ▸ finish refl;
}

-- Three threads that wait until all exist, and run their benchmarks in order.
abbrev pub three_threads : Run 3
three_threads = record {
  last = _;
  reach =
      start
      ▸ spawn 0 (omega arith) refl
      ▸ pin 0 refl
      ▸ spawn 1 (omega arith) refl
      ▸ pin 1 refl
      ▸ spawn 2 (omega arith) refl
      ▸ pin 2 refl
      ▸ spawned refl
      ▸ take refl refl
      ▸ open_gate refl
      ▸ broadcast refl
      ▸ moves 0 (omega arith) refl (lock refl)
      ▸ moves 0 (omega arith) refl (pass refl)
      ▸ moves 0 (omega arith) refl measure
      ▸ moves 0 (omega arith) refl unlock
      ▸ notifies_none 0 (omega arith) refl
      ▸ moves 1 (omega arith) refl (lock refl)
      ▸ moves 1 (omega arith) refl (pass refl)
      ▸ moves 1 (omega arith) refl measure
      ▸ moves 1 (omega arith) refl unlock
      ▸ notifies_none 1 (omega arith) refl
      ▸ moves 2 (omega arith) refl (lock refl)
      ▸ moves 2 (omega arith) refl (pass refl)
      ▸ moves 2 (omega arith) refl measure
      ▸ moves 2 (omega arith) refl unlock
      ▸ notifies_none 2 (omega arith) refl
      ▸ join 0 (omega arith) refl refl
      ▸ join 1 (omega arith) refl refl
      ▸ join 2 (omega arith) refl refl
      ▸ finish refl;
}
