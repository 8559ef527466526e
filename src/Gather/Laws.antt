-- ===== src/Gather/Laws.antt =====
-- After a run, each counter of a schedule is what its worker has left.
use microrev.Common.{
  ℕ, zero, suc, ◌+◌, ◌≤◌, ◌≡◌, refl, subst, ◌∙◌, arith, Bool, true, false, some, List, [], ◌∷◌,
  get_elem?, length,
}
use microrev.Bench.{Body, flusher, reader, writer, producer, consumer, demoter, Schedule}
use microrev.Counter.{Double, Papi, PapillCounter, nought, set_world, framed}
use microrev.Counter.Rounds.{
  Unframed, Frame, clocked_around, clock_before, clock_behind, Rounding, Worked,
}
use microrev.Counter.Laws.{Works, Known}
use microrev.Counter.Steps.{Total, steady, clocked, before, Totals, Standing}
use microrev.Counter.Frames.{Benchmark, framed-Standing}
use microrev.Counter.Thread.{Done, kept_in_all, timed-Benchmark}
use microrev.Gather.{body, started_at, ended_at}

-- How many times a benchmark keeps, and whether it writes over `cycles_measured`.
pub record Timing (B : Type 0) : Type 0 where
  pub times_of : B → ℕ
  pub overwrites : B → Bool

abbrev pub times_of : {B : Type 0} ⦃t : Timing B⦄ → B → ℕ
times_of ⦃t⦄ b = t.times_of b

-- What is known of the total.
abbrev known_total : Bool → Total
known_total true = clocked
known_total false = steady nought

abbrev pub total_of : {B : Type 0} ⦃t : Timing B⦄ → B → Total
total_of ⦃t⦄ b = known_total (t.overwrites b)

known_total-Totals :
    (over : Bool) (now : Double) → now ≡ nought → Totals (before (known_total over)) now
known_total-Totals true now at_nought = tt
known_total-Totals false now at_nought = at_nought

pub total_of-Totals :
    {B : Type 0} ⦃t : Timing B⦄ (b : B) (now : Double)
    → now ≡ nought
    → Totals (before (total_of b)) now
total_of-Totals ⦃t⦄ b = known_total-Totals (t.overwrites b)

abbrev times_of_body : Body → ℕ
times_of_body flusher = 0
times_of_body demoter = 0
times_of_body b = 1

instance abbrev pub body_timing : Timing Body
body_timing = record { times_of = times_of_body; overwrites = λ b. false }

-- What the worker of an entry leaves.
abbrev pub DoneOf :
    (P : Papi) {B : Type 0} ⦃t : Timing B⦄ → Rounding P B → ℕ → Schedule B → PapillCounter → Type 0
DoneOf P round warmup e c =
    Done e.events (e.core_id, e.label, total_of e.benchmark)
      (kept_in_all (times_of e.benchmark) e.events warmup) c
    × Worked {P = P} (round e.benchmark) e.events warmup c

-- What the bodies do in a run.
abbrev pub round_of : (P : Papi) → (Body → P.World → P.World) → Rounding P Body
round_of P walk flusher = Unframed {P = P} (walk flusher)
round_of P walk demoter = Unframed {P = P} (walk demoter)
round_of P walk reader = Frame {P = P} (clocked_around P (walk reader))
round_of P walk writer = Frame {P = P} (clocked_around P (walk writer))
round_of P walk producer = Frame {P = P} (clock_before P (walk producer))
round_of P walk consumer = Frame {P = P} (clock_behind P (walk consumer))

module _ (P : Papi) (works : Works P) where
  -- Names and numbers of the events of a schedule are those of the machine.
  abbrev pub Runnable : {B : Type 0} → List (Schedule B) → Type 0
  Runnable [] = Unit
  Runnable (e ∷ svec) =
      Known works e.events × (length e.events ≤ suc works.counters) × Runnable svec

  pub Runnable-get :
      {B : Type 0} (svec : List (Schedule B)) (i : ℕ) (e : Schedule B)
      → Runnable svec
      → get_elem? svec i ≡ some e
      → Known works e.events × (length e.events ≤ suc works.counters)
  Runnable-get [] i e fits at = absurd (ground arith)
  Runnable-get {B = B} (f ∷ svec) zero e (known, room, fits) at =
      let same : f ≡ e = ground arith in
      subst (λ (g : Schedule B). Known works g.events × (length g.events ≤ suc works.counters)) same
        (known, room)
  Runnable-get (f ∷ svec) (suc i) e (known, room, fits) at = Runnable-get svec i e fits at

  pub plain-Benchmark :
      (d : Double) (step : P.World → P.World)
      → ((w : P.World) → works.phase (step w) ≡ works.phase w)
      → Benchmark works (steady d) 0 (Unframed step) (λ s. some (set_world s (step s.world)))
  plain-Benchmark d step keeps = record {
    run = λ core label n k s st. (
      set_world s (step s.world),
      refl,
      (
        record {
          phase = keeps s.world ∙ st.phase;
          events = st.events;
          cycles = omega (arith, st.cycles);
          pinned = st.pinned;
          room = st.room;
        },
        λ full. full,
        refl,
        refl,
      ),
    );
  }

  one_more : (k : ℕ) → suc k ≡ 1 + k
  one_more k = omega arith

  framed-Benchmark :
      (d : Double) (between : P.World → _ × P.World)
      → ((w : P.World) → works.phase (between w).1 ≡ works.phase w)
      → Benchmark works (steady d) 1 (Frame between) (framed between)
  framed-Benchmark d between keeps = record {
    run = λ core label n k s st.
        let (s', returned, (st', counted, frame)) =
          framed-Standing works between keeps (core, label, steady d) n k s st in
        (
          s',
          returned,
          (
            subst (λ j. Standing works (core, label, steady d) n j s') (one_more k) st',
            λ full. counted,
            frame,
            frame.codes,
          ),
        );
  }

module _ (P : Papi) (works : Works P) (walk : Body → P.World → P.World)
    (walk_keeps : (b : Body) (w : P.World) → works.phase (walk b w) ≡ works.phase w) where
  pub body-Benchmark :
      (b : Body) → Benchmark works (total_of b) (times_of b) (round_of P walk b) (body P walk b)
  body-Benchmark flusher = plain-Benchmark P works nought (walk flusher) (walk_keeps flusher)
  body-Benchmark demoter = plain-Benchmark P works nought (walk demoter) (walk_keeps demoter)
  body-Benchmark reader = timed-Benchmark works (walk reader) (walk_keeps reader) nought
  body-Benchmark writer = timed-Benchmark works (walk writer) (walk_keeps writer) nought
  body-Benchmark producer =
      framed-Benchmark P works nought (started_at P walk)
        (λ w. walk_keeps producer (P.rdtsc w).1 ∙ works.rdtsc w)
  body-Benchmark consumer =
      framed-Benchmark P works nought (ended_at P walk)
        (λ w. works.rdtsc (walk consumer w) ∙ walk_keeps consumer w)
