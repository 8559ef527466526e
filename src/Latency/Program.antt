-- ===== src/Latency/Program.antt =====
-- `main` of standalone/rd_latency.c. `malloc k` is the address of the array of round `k`, and `clock k`
-- what the call number `k` of `clock_gettime` reads.
pub mod Laws
use microrev.Common.{
  ℕ, zero, suc, ◌+◌, ◌*◌, ◌^◌, Option, none, some, List, [], ◌∷◌, ltb, ◌>>=◌, if◌then◌else◌,
}
use microrev.Common.Int.{ℤ, pos, negsuc, sub_ℕ, ◌+ℤ◌, ◌-ℤ◌}
use microrev.Chain.{Memory}
use microrev.Latency.{allocate_random_array, access_array}

pub record Timespec : Type 0 where
  pub tv_sec : ℕ
  pub tv_nsec : ℕ

-- A product with SECONDS_PER_NS, 1000000000
abbrev pub in_ns : ℤ → ℤ
in_ns (pos n) = pos (n * 1000000000)
in_ns (negsuc n) = sub_ℕ 0 (suc n * 1000000000)

-- The dividend of `accessTime`
unfoldable pub access_time : Timespec → Timespec → ℤ
unfolding ◌-ℤ◌ ◌+ℤ◌
access_time start_access end_access =
    in_ns (pos end_access.tv_sec -ℤ pos start_access.tv_sec)
    +ℤ (pos end_access.tv_nsec -ℤ pos start_access.tv_nsec)

-- A line of accessData.txt: the quotient of `time` and `divisor`, and the size. `iterate` is where
-- the walk has come to.
pub record Reading : Type 0 where
  pub time : ℤ
  pub divisor : ℕ
  pub size : ℕ
  pub iterate : ℕ

module _ (malloc : ℕ → ℕ) (clock : ℕ → Timespec) (num_accesses : ℕ) where
  -- `accessArray`, which `allocateRandomArray` calls for the array that it has linked.
  abbrev pub read_array : ℕ → ℕ → Memory → Reading
  read_array k size m = record {
    time = access_time (clock (2 * k)) (clock (2 * k + 1));
    divisor = 100 * num_accesses;
    size = size;
    iterate = access_array num_accesses m (malloc k);
  }

  -- `for( long long i = 512; i < 268435456; i *= 2 )`
  unfoldable pub rounds : ℕ → ℕ → ℕ → Memory → Option (List Reading)
  rounds zero k i m = none
  rounds (suc fuel) k i m =
      let rest = (do
        m' ← allocate_random_array (malloc k) i m
        out ← rounds fuel (suc k) (i * 2) m'
        some (read_array k i m' ∷ out)) in
      if ltb i 268435456 then rest else some []

  -- Twenty tests of the condition.
  unfoldable pub rd_latency : Memory → Option (List Reading)
  unfolding rounds
  rd_latency m = rounds 20 0 512 m
