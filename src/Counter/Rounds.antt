-- ===== src/Counter/Rounds.antt =====
-- What a run of a benchmark does to its counter, described by the calls of PAPI that return in it and
-- the readings of the clock: apart from the code of the benchmarks.
use microrev.Common.{ℕ, zero, suc, ◌+◌, ◌-◌, ◌%◌, ◌^◌, ◌≡◌, some, List, [], ◌∷◌, ◌++◌, map, length}
use microrev.Common.Int.{ℤ}
use microrev.Average.{from_u64}
use microrev.Counter.{Papi, PapillCounter, Run, set_world}
use Prim.Native.String.{String}

-- The clock before and after a walk, and what has passed between.
abbrev pub clocked_around : (P : Papi) → (P.World → P.World) → P.World → ℤ × P.World
clocked_around P walk w =
    let (begin, w1) = P.rdtsc w in
    let (finish, w2) = P.rdtsc (walk w1) in (from_u64 ((finish + 2 ^ 64 - begin) % 2 ^ 64), w2)

-- The clock before a walk.
abbrev pub clock_before : (P : Papi) → (P.World → P.World) → P.World → ℤ × P.World
clock_before P walk w = let (begin, w1) = P.rdtsc w in (from_u64 begin, walk w1)

-- The clock behind a walk.
abbrev pub clock_behind : (P : Papi) → (P.World → P.World) → P.World → ℤ × P.World
clock_behind P walk w = let (finish, w1) = P.rdtsc (walk w) in (from_u64 finish, w1)

-- What each kind of benchmark does in a run.
abbrev pub Rounding : Papi → Type 0 → Type 1
Rounding P B = B → ℕ → Run P → Run P → Type 0

module _ {P : Papi} where
  -- With events the counters are set going; without, nothing is done.
  abbrev pub Begins : ℕ → Run P → P.World → Type 0
  Begins zero s w = w ≡ s.world
  Begins (suc n) s w = P.start s.event_set s.world ≡ some w

  -- With events the counts are those that the stop of the event set gives.
  abbrev pub Ends : ℕ → Run P → P.World → Run P → Type 0
  Ends zero s w s' = (s'.world ≡ w) × (s'.measured ≡ s.measured)
  Ends (suc n) s w s' = P.stop s.event_set w ≡ some (s'.measured, s'.world)

  -- Something between the start and the stop, which gives a value.
  pub record Bracket {A : Type 0} (between : P.World → A × P.World) (n : ℕ) (a : A) (s s' : Run P)
      : Type 0 where
    pub w : P.World
    pub begins : Begins n s w
    pub ends : Ends n s (between w).1 s'
    pub value : a ≡ (between w).0
    pub codes : s'.cset ≡ s.cset
    pub times : s'.vec_cycles_measured ≡ s.vec_cycles_measured

  -- The value is a time, which is kept behind those before.
  pub record Frame (between : P.World → ℤ × P.World) (n : ℕ) (s s' : Run P) : Type 0 where
    pub w : P.World
    pub begins : Begins n s w
    pub ends : Ends n s (between w).1 s'
    pub codes : s'.cset ≡ s.cset
    pub times : s'.vec_cycles_measured ≡ s.vec_cycles_measured ++ (between w).0 ∷ []

  -- Only the machine changes.
  abbrev pub Unframed : (P.World → P.World) → ℕ → Run P → Run P → Type 0
  Unframed step n s s' = s' ≡ set_world s (step s.world)

  -- A number of runs, one after the other.
  abbrev pub Rounds : (Run P → Run P → Type 0) → ℕ → Run P → Run P → Type 0
  Rounds round zero s s' = s' ≡ s
  Rounds round (suc n) s s' = (t : Run P) × round s t × Rounds round n t s'

  -- With events the counts and the times are cleared; without, nothing is.
  abbrev pub Clears : ℕ → Run P → Run P → Type 0
  Clears zero s s' = s' ≡ s
  Clears (suc n) s s' =
      (P.reset s.event_set s.world ≡ some s'.world)
      × (s'.vec_cycles_measured ≡ [])
      × (s'.cset ≡ s.cset)

  -- How a counter has come about: the warm-up runs, the reset, and the run whose counts it has.
  pub record Worked (round : ℕ → Run P → Run P → Type 0) (events : List String) (warmup : ℕ)
      (c : PapillCounter) : Type 0 where
    pub at_first : Run P
    pub warm : Run P
    pub cleared : Run P
    pub left : Run P
    pub no_times : at_first.vec_cycles_measured ≡ []
    pub warms : Rounds (round (length events)) warmup at_first warm
    pub clears : Clears (length events) warm cleared
    pub last : round (length events) cleared left
    pub counts : c.measured ≡ left.measured
    pub times : c.vec_cycles_measured ≡ left.vec_cycles_measured
    pub total : c.cycles_measured ≡ left.cycles_measured
    pub named : (w : P.World) → map (λ code. P.event_code_to_name code w) c.cset ≡ events
