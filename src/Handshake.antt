-- ===== src/Handshake.antt =====
-- The loops of `producer_` and `consumer_` of the macro BENCHMARK_INIT in
-- src/library/include/benchmark_helpers.h, as two threads that run at the same time. They meet at
-- the atomic operations on `wrflag`, so that one step is a round of the producer or one test-and-set
-- of the consumer. `wrflag` is a function of the index; both loops stay below `line_cnt`, its size.
pub mod Order
mod Tests
use microrev.Common.{ℕ, suc, ◌<◌, ◌≡◌, Bool, true, false, ◌==◌, if◌then◌else◌}
use microrev.Common.Int.{ℤ, pos, negsuc, ◌-ℤ◌}

pub record Flags : Type 0 where
  pub wrflag : ℕ → ℤ
  pub produced : ℕ
  pub consumed : ℕ

abbrev pub put : (ℕ → ℤ) → ℕ → ℤ → ℕ → ℤ
put f i v j = if i == j then v else f j

abbrev pub is_zero : ℤ → Bool
is_zero (pos n) = n == 0
is_zero (negsuc n) = false

-- `__sync_fetch_and_add( &wrflag[i], -1 )`, at the end of round `i`
unfoldable pub produce : Flags → Flags
unfolding ◌-ℤ◌
produce s = record s {
  wrflag = put s.wrflag s.produced (s.wrflag s.produced -ℤ pos 1);
  produced = suc s.produced;
}

-- `while( !__sync_lock_test_and_set( &wrflag[i], 1 ) )`: the old value decides whether the consumer
-- spins, or goes on to the next line.
unfoldable pub consume : Flags → Flags
consume s =
    let tested : Flags = record s { wrflag = put s.wrflag s.consumed (pos 1) } in
    if is_zero (s.wrflag s.consumed) then tested else record tested { consumed = suc s.consumed }

pub data Turn (line_cnt : ℕ) (s : Flags) : Flags → Type 0 where
  produces : s.produced < line_cnt → Turn line_cnt s (produce s)
  consumes : s.consumed < line_cnt → Turn line_cnt s (consume s)

-- The two bodies at their start, over the flags that they find.
abbrev pub fresh : (ℕ → ℤ) → Flags
fresh wrflag = record { wrflag = wrflag; produced = 0; consumed = 0 }

pub data Turns (line_cnt : ℕ) (wrflag : ℕ → ℤ) : Flags → Type 0 where
  start : Turns line_cnt wrflag (fresh wrflag)
  later : {s t : Flags} → Turns line_cnt wrflag s → Turn line_cnt s t → Turns line_cnt wrflag t

-- The flags that `pr_co_setup` sets to 1.
abbrev pub all_set : ℕ → ℤ
all_set i = pos 1

-- The flags that a test finds: those of `pr_co_setup`, or what the tests on them have left.
pub data Found (line_cnt : ℕ) : (ℕ → ℤ) → Type 0 where
  set_up : Found line_cnt all_set
  after :
      {f : ℕ → ℤ} {s : Flags}
      → Found line_cnt f
      → Turns line_cnt f s
      → s.produced ≡ line_cnt
      → s.consumed ≡ line_cnt
      → Found line_cnt s.wrflag
