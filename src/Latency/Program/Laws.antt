-- ===== src/Latency/Program/Laws.antt =====
-- What rd_latency.c writes to its file.
use microrev.Common.{
  ℕ, zero, suc, ◌+◌, ◌*◌, ◌%◌, ◌≤◌, ◌<◌, ◌≡◌, refl, sym, arith, true, false, some, List, [], ◌∷◌,
  ltb,
}
use microrev.Common.Int.{sub_ℕ, ◌+ℤ◌, ◌-ℤ◌}
use microrev.Chain.{Memory}
use microrev.Latency.Ring.{allocate_random_array-IsRing}
use microrev.Latency.Access.{access_array-position}
use microrev.Latency.Program.{Timespec, access_time, Reading, rounds, rd_latency}

-- Nanoseconds since the epoch.
abbrev pub ns : Timespec → ℕ
ns t = t.tv_sec * 1000000000 + t.tv_nsec

-- Whichever of the two fields is less in the second time.
access_time-ns : (a b : Timespec) → access_time a b ≡ sub_ℕ (ns b) (ns a)
unfolding access_time ◌+ℤ◌ ◌-ℤ◌
access_time-ns a b = ground arith

double : ℕ → ℕ → ℕ
double zero x = x
double (suc n) x = double n (x * 2)

le-double : (n x : ℕ) → x ≤ double n x
unfolding double
le-double zero x = omega arith
le-double (suc n) x = omega (arith, le-double n (x * 2))

module _ (malloc : ℕ → ℕ) (clock : ℕ → Timespec) (num_accesses : ℕ) where
  -- `left` readings from the round `k` on: the time between the two calls of the clock, and where
  -- the 60 loads of each HUNDO lead in a ring of `lines` lines.
  abbrev pub readings : ℕ → ℕ → ℕ → List Reading
  readings zero k lines = []
  readings (suc left) k lines =
      record {
        time = sub_ℕ (ns (clock (2 * k + 1))) (ns (clock (2 * k)));
        divisor = 100 * num_accesses;
        size = lines * 64;
        iterate = malloc k + (num_accesses * 60) % lines * 64;
      }
      ∷ readings left (suc k) (lines * 2)

  rounds-readings :
      (left fuel k lines i : ℕ) (m : Memory)
      → left < fuel
      → 0 < lines
      → i ≡ lines * 64
      → double left i ≡ 268435456
      → rounds malloc clock num_accesses fuel k i m ≡ some (readings left k lines)
  unfolding rounds double
  rounds-readings left zero k lines i m enough some_lines size top = absurd (omega arith)
  rounds-readings zero (suc fuel) k lines i m enough some_lines size top =
      let over : ltb i 268435456 ≡ false = ground arith in rw over refl
  rounds-readings (suc left) (suc fuel) k zero i m enough some_lines size top = absurd (omega arith)
  rounds-readings (suc left) (suc fuel) k (suc n) i m enough some_lines size top =
      let on : ltb i 268435456 ≡ true = ground (arith, le-double left (i * 2)) in
      let (m', returned, ring) = allocate_random_array-IsRing (malloc k) n m in
      let rest =
        rounds-readings left fuel (suc k) (suc n * 2) (i * 2) m' (omega arith) (omega arith)
          (omega arith) top in
      let stands = access_array-position (malloc k) n m m' ring num_accesses in
      let time = access_time-ns (clock (2 * k)) (clock (2 * k + 1)) in
      rw (on, size, returned, sym size, rest) (rw (time, stands) refl)

  -- rd_latency.c returns, and has written a reading for each of the 19 sizes from 512 bytes on, each
  -- twice the one before: the nanoseconds between the two calls of the clock, against 100 accesses for
  -- each HUNDO; a HUNDO makes 60, so that the walk ends at line 60 * num_accesses, modulo the lines.
  pub rd_latency-readings :
      (m : Memory) → rd_latency malloc clock num_accesses m ≡ some (readings 19 0 8)
  unfolding rd_latency double
  rd_latency-readings m = rounds-readings 19 20 0 8 512 m (omega arith) (omega arith) refl refl
