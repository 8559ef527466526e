-- ===== src/Clock/Laws.antt =====
-- The difference of two readings of the time-stamp counter is the time between them, also where the
-- counter has wrapped round.
use microrev.Common.{ℕ, ◌+◌, ◌-◌, ◌%◌, ◌^◌, ◌≤◌, ◌<◌, ◌≡◌, arith}
use microrev.Common.Int.{pos}
use microrev.Average.{from_u64}
use microrev.Counter.{elapsed}
use microrev.Clock.{Cpu, rdtsc, readings, spawn_run_join}

-- `ticks` are the cycles since the machine was reset, of which the counter has the lower 64 bits; no
-- instruction turns them back.
pub record Ticking (C : Cpu) : Type 0 where
  pub ticks : C.World → ℕ
  pub reads : (w : C.World) → (C.tsc w).0 ≡ ticks w % 2 ^ 64
  pub tsc_on : (w : C.World) → ticks w ≤ ticks (C.tsc w).1
  pub lfence_on : (w : C.World) → ticks w ≤ ticks (C.lfence w)

difference :
    (t0 t1 : ℕ)
    → t0 ≤ t1
    → t1 < t0 + 2 ^ 64
    → (t1 % 2 ^ 64 + 2 ^ 64 - t0 % 2 ^ 64) % 2 ^ 64 ≡ t1 - t0
difference t0 t1 le lt = omega arith

from_u64-small : (n : ℕ) → n < 2 ^ 63 → from_u64 n ≡ pos n
from_u64-small n lt = ground arith

-- What a time of `n` ticks is kept as.
pub record Exact (C : Cpu) (laws : Ticking C) (least : ℕ) (run : C.World → C.World) (w : C.World)
    : Type 0 where
  pub n : ℕ
  pub returned : (spawn_run_join C run w).0 ≡ n
  pub kept : elapsed (readings C run w).0.0 (readings C run w).0.1 ≡ pos n
  pub low : least ≤ n
  pub high : laws.ticks w + n ≤ laws.ticks (spawn_run_join C run w).1

module _ (C : Cpu) (laws : Ticking C) where
  -- For code that takes `least` ticks or more, where the call as a whole takes fewer than 2^63,
  -- `spawn_run_join` returns the ticks between its two readings, and so does the `int64_t` that the
  -- bodies keep of such readings, whether the counter wraps round between them or not. They are not
  -- fewer than those of the code, and not more than those of the call.
  pub spawn_run_join-Exact :
      (least : ℕ) (run : C.World → C.World) (w : C.World)
      → ((v : C.World) → laws.ticks v + least ≤ laws.ticks (run v))
      → laws.ticks (spawn_run_join C run w).1 < laws.ticks w + 2 ^ 63
      → Exact C laws least run w
  unfolding spawn_run_join readings rdtsc
  spawn_run_join-Exact least run w takes short =
      let a = C.lfence w in
      let b = C.lfence (run (C.lfence (C.tsc a).1)) in
      let on_a : laws.ticks w ≤ laws.ticks a = laws.lfence_on w in
      let on_b : laws.ticks a + least ≤ laws.ticks b = omega (
        arith,
        laws.tsc_on a,
        laws.lfence_on (C.tsc a).1,
        takes (C.lfence (C.tsc a).1),
        laws.lfence_on (run (C.lfence (C.tsc a).1)),
      ) in
      let behind : laws.ticks b ≤ laws.ticks (C.lfence (C.tsc b).1) =
        omega (arith, laws.tsc_on b, laws.lfence_on (C.tsc b).1) in
      let same = difference (laws.ticks a) (laws.ticks b) (omega arith) (omega arith) in
      record {
        n = laws.ticks b - laws.ticks a;
        returned = rw (laws.reads a, laws.reads b) same;
        kept =
            rw (laws.reads a, laws.reads b, same)
              (from_u64-small (laws.ticks b - laws.ticks a) (omega arith));
        low = omega arith;
        high = omega arith;
      }
